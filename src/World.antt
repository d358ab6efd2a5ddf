-- ===== src/World.antt =====
-- internal/gateway/ws_handle.go: what a connection's handler reads and changes. The dependencies of
-- GatewayServer that may be nil are the flags of `Server`; what time, chance, the auth service and
-- MySQL answer while one frame is handled is `Env`.
use go_chat_x.Common.{ℕ, String, Bool, Option, none, List, [], ◌∷◌}
use mathlib.Core.List.{◌++◌}
use go_chat_x.Go.{Go, modify, when}
use go_chat_x.Message.{ChatMessage}
use go_chat_x.Protocol.{WsPayload}
use go_chat_x.Hub.{Hub, Client, try_send}

pub record Server : Type 0 where
  pub has_auth : Bool
  pub has_mongo : Bool
  pub has_redis : Bool
  pub has_db : Bool

-- The commands that the gateway sends to Redis and whose errors it ignores; a `ttl` is in seconds,
-- and 0 is none.
pub data RedisCommand : Type 0 where
  set : (key value : String) (ttl : ℕ) → RedisCommand
  del : (key : String) → RedisCommand

-- `pending` are the messages that `go func()` has yet to save, `S` is the state of MongoDB.
pub record World (S : Type 0) : Type 0 where
  pub hub : Hub
  pub store : S
  pub redis : List RedisCommand
  pub pending : List ChatMessage

-- The local variables of HandleWS; `last_seen` is that of the client `me`.
pub record Session : Type 0 where
  pub me : Option Client
  pub auth_attempts : ℕ
  pub last_seen : ℕ

pub record TokenResponse : Type 0 where
  pub valid : Bool
  pub user_id : String

-- `clock i` is the reading i of time.Now() while the frame is handled, in milliseconds; `random` is
-- rand.Intn(10000). `none` is an error, or a nil response.
pub record Env : Type 0 where
  pub clock : ℕ → ℕ
  pub random : ℕ
  pub validate : String → Option TokenResponse
  pub role_of : String → Option String

abbrev pub no_session : Session
no_session = record { me = none; auth_attempts = 0; last_seen = 0 }

module _ {S : Type 0} where
  unfoldable pub on_hub : {A : Type 0} → Go Hub A → Go (World S) A
  on_hub m w = let (r, h) = m w.hub in (r, record w { hub = h })

  -- sendJSON; a payload is always marshalled
  unfoldable pub send_json : ℕ → WsPayload → Go (World S) Unit
  send_json k b = on_hub (try_send k b)

  unfoldable pub redis_do : Server → RedisCommand → Go (World S) Unit
  redis_do srv c = when srv.has_redis (modify (λ w. record w { redis = w.redis ++ c ∷ [] }))

  -- `go func() { s.Mongo.SaveMessage(cm) }()`
  unfoldable pub spawn_save : Server → ChatMessage → Go (World S) Unit
  spawn_save srv m = when srv.has_mongo (modify (λ w. record w { pending = w.pending ++ m ∷ [] }))
