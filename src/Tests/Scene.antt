-- ===== src/Tests/Scene.antt =====
-- Two users, ann on connection 0 and bob on connection 1, of a gateway over the collection in
-- memory.
use go_chat_x.Common.{ℕ, zero, suc, ◌+◌, String, true, false, none, some, List, [], ◌∷◌}
use go_chat_x.Protocol.{pos, WsMsg, message}
use go_chat_x.Hub.{Client, Chan, Hub}
use go_chat_x.Storage.Documents.{Document}
use go_chat_x.World.{Server, World, Env}
use go_chat_x.System.{Event, connect, frame, hang_up, finish, write, save}

-- Dev mode, with MongoDB and Redis.
abbrev pub dev : Server
dev = record { has_auth = false; has_mongo = true; has_redis = true; has_db = false }

-- With an auth service that accepts every token, and a database in which every user is banned.
abbrev pub service : Server
service = record { has_auth = true; has_mongo = true; has_redis = true; has_db = true }

abbrev pub no_service : Env
no_service = record { clock = λ i. 1000 + i; random = 7; validate = λ _. none; role_of = λ _. none }

abbrev pub strict : Env
strict = record {
  clock = λ i. 1000 + i;
  random = 7;
  validate = λ token. some (record { valid = true; user_id = token });
  role_of = λ _. some "banned";
}

abbrev pub msg : String → String → String → String → String → WsMsg
msg type token room_id to content = record {
  type = type;
  token = token;
  room_id = room_id;
  to = to;
  content = content;
  limit = pos 0;
}

abbrev pub user : ℕ → String
user zero = "ann"
user (suc _) = "bob"

abbrev pub ann : Client
ann = record { user_id = "ann"; conn = 0 }

abbrev pub bob : Client
bob = record { user_id = "bob"; conn = 1 }

abbrev pub open_chan : Chan
open_chan = record { buf = []; closed = false }

-- Both are online and in the room "lobby", which is the room 0.
abbrev pub lobby : Hub
lobby = record {
  online = ("ann", ann) ∷ ("bob", bob) ∷ [];
  rooms = ("lobby", 0) ∷ [];
  room = λ _. record { id = "lobby"; clients = ("ann", ann) ∷ ("bob", bob) ∷ [] };
  fresh = 1;
  chan = λ _. open_chan;
  shut = λ _. false;
}

-- Only bob is online.
abbrev pub without_ann : Hub
without_ann = record {
  online = ("bob", bob) ∷ [];
  rooms = ("lobby", 0) ∷ [];
  room = λ _. record { id = "lobby"; clients = [] };
  fresh = 1;
  chan = λ _. open_chan;
  shut = λ _. false;
}

abbrev pub world_of : Hub → World (List Document)
world_of h = record { hub = h; store = []; redis = []; pending = [] }

abbrev pub evening : List Event
evening =
    connect 0
    ∷ frame 0 no_service (message (msg "auth" "ann" "" "" ""))
    ∷ connect 1
    ∷ frame 1 no_service (message (msg "auth" "bob" "" "" ""))
    ∷ frame 0 no_service (message (msg "join" "" "lobby" "" ""))
    ∷ frame 1 no_service (message (msg "join" "" "lobby" "" ""))
    ∷ frame 1 no_service (message (msg "send" "" "lobby" "" "hi"))
    ∷ write 0 false
    ∷ save 2000 0
    ∷ hang_up 0 no_service
    ∷ finish 0
    ∷ frame 1 no_service (message (msg "send" "" "lobby" "" "still there?"))
    ∷ []
