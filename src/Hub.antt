-- ===== src/Hub.antt =====
-- internal/gateway/clients.go and room.go: the users online, the rooms and the send channels. Each
-- function runs whole under its mutex. A room is a pointer into `room`; a client is a value, since
-- no code compares client pointers or reads the time in a client through one of these maps.
pub mod Lemmas
pub mod Live
pub mod LiveRooms
pub mod Rules
pub mod Once
pub mod View
pub mod Leads
pub mod Sound
pub mod Broadcast
pub mod Race
pub mod Posts
use go_chat_x.Common.{
  ℕ, suc, ◌+◌, String, Bool, true, false, Option, none, some, List, [], ◌∷◌, ◌++◌, map, length, ltb,
  update, if◌then◌else◌,
}
use go_chat_x.GoMap.{GoMap, lookup, insert, delete, keys, contains}
use go_chat_x.Go.{Go, pure, panics, gets, modify, if_some, for_each, ◌>>=◌, ◌>>◌, done}
use go_chat_x.Protocol.{WsPayload}

-- `conn` numbers the connection, and with it the `Conn` and the `Send` that HandleWS makes for it.
pub record Client : Type 0 where
  pub user_id : String
  pub conn : ℕ

pub record Room : Type 0 where
  pub id : String
  pub clients : GoMap Client

-- `make(chan []byte, 256)`
pub record Chan : Type 0 where
  pub buf : List WsPayload
  pub closed : Bool

abbrev pub chan_size : ℕ
chan_size = 256

-- The rooms at and above `fresh` are not allocated yet; `shut` are the connections that the server
-- has closed.
pub record Hub : Type 0 where
  pub online : GoMap Client
  pub rooms : GoMap ℕ
  pub room : ℕ → Room
  pub fresh : ℕ
  pub chan : ℕ → Chan
  pub shut : ℕ → Bool

abbrev pub new_chan : Chan
new_chan = record { buf = []; closed = false }

unfoldable pub new_room : String → Room
new_room id = record { id = id; clients = [] }

unfoldable pub init : Hub
unfolding new_room
init = record {
  online = [];
  rooms = [];
  room = λ _. new_room "";
  fresh = 0;
  chan = λ _. new_chan;
  shut = λ _. false;
}

-- `select { case ch <- b: default: }`
unfoldable pub offer : WsPayload → Chan → Chan
offer b c = if ltb (length c.buf) chan_size then record c { buf = c.buf ++ b ∷ [] } else c

unfoldable pub try_send : ℕ → WsPayload → Go Hub Unit
unfolding panics pure modify offer
try_send k b h =
    if (h.chan k).closed
    then panics h
    else modify (λ g. record g { chan = update g.chan k (offer b (g.chan k)) }) h

unfoldable pub close_conn : ℕ → Go Hub Unit
unfolding modify
close_conn k = modify (λ h. record h { shut = update h.shut k true })

unfoldable pub close_chan : ℕ → Go Hub Unit
unfolding modify
close_chan k =
    modify (λ h. record h { chan = update h.chan k (record (h.chan k) { closed = true }) })

unfoldable pub register_online : String → Client → Go Hub Unit
unfolding modify
register_online user_id c = modify (λ h. record h { online = insert user_id c h.online })

unfoldable pub unregister_online : String → Go Hub Unit
unfolding modify
unregister_online user_id = modify (λ h. record h { online = delete user_id h.online })

unfoldable pub get_online_client : String → Go Hub (Option Client)
unfolding gets
get_online_client user_id = gets (λ h. lookup user_id h.online)

unfoldable pub get_online_users : Go Hub (List String)
unfolding gets
get_online_users = gets (λ h. keys h.online)

unfoldable pub set_clients : ℕ → GoMap Client → Hub → Hub
set_clients p m h = record h { room = update h.room p (record (h.room p) { clients = m }) }

unfoldable pub add_client : ℕ → Client → Go Hub Unit
unfolding modify set_clients
add_client p c = modify (λ h. set_clients p (insert c.user_id c (h.room p).clients) h)

unfoldable pub remove_client : ℕ → Client → Go Hub Unit
unfolding modify set_clients
remove_client p c = modify (λ h. set_clients p (delete c.user_id (h.room p).clients) h)

unfoldable pub room_contains : ℕ → String → Hub → Bool
unfolding contains
room_contains p user_id h = contains user_id (h.room p).clients

unfoldable pub members : ℕ → Hub → List Client
members p h = map (λ e. e.1) (h.room p).clients

unfoldable pub broadcast : ℕ → WsPayload → Go Hub Unit
unfolding gets ◌>>=◌
broadcast p b = gets (members p) >>= λ cs. for_each cs (λ c. try_send c.conn b)

-- The first half of getOrCreateRoom, under the read lock.
unfoldable pub peek_room : String → Go Hub (Option ℕ)
unfolding gets
peek_room room_id = gets (λ h. lookup room_id h.rooms)

unfoldable pub allocate_room : String → Go Hub ℕ
unfolding new_room
allocate_room room_id h = (
  done h.fresh,
  record h {
    rooms = insert room_id h.fresh h.rooms;
    room = update h.room h.fresh (new_room room_id);
    fresh = suc h.fresh;
  },
)

-- The second half, under the write lock.
unfoldable pub create_room : String → Go Hub ℕ
unfolding peek_room ◌>>=◌
create_room room_id = peek_room room_id >>= λ r. if_some r pure (allocate_room room_id)

unfoldable pub get_or_create_room : String → Go Hub ℕ
unfolding peek_room ◌>>=◌
get_or_create_room room_id = peek_room room_id >>= λ r. if_some r pure (create_room room_id)

unfoldable pub is_empty {ℓ} : {V : Type ℓ} → GoMap V → Bool
is_empty [] = true
is_empty (_ ∷ _) = false

unfoldable pub drop_if_empty : String → Option ℕ → Hub → Hub
drop_if_empty room_id none h = h
drop_if_empty room_id (some p) h =
    if is_empty (h.room p).clients then record h { rooms = delete room_id h.rooms } else h

unfoldable pub remove_empty_room : String → Go Hub Unit
unfolding modify drop_if_empty
remove_empty_room room_id = modify (λ h. drop_if_empty room_id (lookup room_id h.rooms) h)

unfoldable pub get_room_count : Go Hub ℕ
unfolding gets
get_room_count = gets (λ h. length h.rooms)

unfoldable pub get_room_ids : Go Hub (List String)
unfolding gets
get_room_ids = gets (λ h. keys h.rooms)
