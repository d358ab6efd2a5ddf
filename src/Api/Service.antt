-- ===== src/Api/Service.antt =====
-- The auth service as the REST API calls it, over gRPC: a reply arrives as it is, and a status
-- with the code Internal as an error. `rpc_text` is the text of that error.
use mathlib.Core.List.{◌++◌}
use go_chat_x.Common.{ℕ, String, List}
use go_chat_x.World.{RedisCommand}
use go_chat_x.Auth.{Reply, reply, internal, RegisterResponse, LoginResponse, register, login}
use go_chat_x.Auth.Backend.{Users, Crypt, Tokens}
use go_chat_x.Api.Backend.{Call, returned, failed, AuthClient}

unfoldable pub over_rpc : {A : Type 0} → (rpc_text : String → String) → Reply A → Call A
over_rpc rpc_text (reply a) = returned a
over_rpc rpc_text (internal message) = failed (rpc_text message)

-- The table of users, and what the service has sent to Redis.
abbrev pub Accounts : Users → Type 0
Accounts U = U.State × List RedisCommand

module _ (U : Users) (B : Crypt) (K : Tokens) (secret : String) (rpc_text : String → String)
    (salt now : ℕ) where
  unfoldable pub register_over :
      (username password : String) → Accounts U → Call RegisterResponse × Accounts U
  register_over username password (s, cs) =
      let (r, s') = register U B K secret salt username password s in
      (over_rpc rpc_text r, (s', cs))

  unfoldable pub login_over :
      (username password : String) → Accounts U → Call LoginResponse × Accounts U
  login_over username password (s, cs) =
      let (r, sent) = login U B K secret now username password s in
      (over_rpc rpc_text r, (s, cs ++ sent))

  abbrev pub client_of : AuthClient (Accounts U)
  client_of = record { register_call = register_over; login_call = login_over }
