-- ===== src/Ws/Auth.antt =====
-- internal/gateway/ws_handle.go: the case "auth" and pushUndelivered.
use Prim.Native.String.{◌++◌}
use go_chat_x.Common.{
  ℕ, suc, String, Bool, false, ◌&&◌, Option, none, some, List, [], ◌∷◌, ltb, ◌==◌, if◌then◌else◌,
}
use go_chat_x.Go.{Go, done, pure, when, if_some, for_each, ◌>>=◌, ◌>>◌}
use go_chat_x.Message.{ChatMessage}
use go_chat_x.Protocol.{WsPayload}
use go_chat_x.Text.{itoa}
use go_chat_x.Hub.{try_send, close_conn, register_online, get_online_client}
use go_chat_x.Storage.Documents.{Collection}
use go_chat_x.Storage.{pull_undelivered_for_user}
use go_chat_x.World.{Server, set, World, Session, TokenResponse, Env, on_hub, send_json, redis_do}

abbrev pub max_auth_attempts : ℕ
max_auth_attempts = 3

abbrev pub online_key : String → String
online_key user_id = "user:" ++ (user_id ++ ":online")

abbrev pub last_seen_key : String → String
last_seen_key user_id = "user:" ++ (user_id ++ ":last_seen")

abbrev pub undelivered_payload : String → ChatMessage → WsPayload
undelivered_payload user_id m = WsPayload.private m.from user_id m.timestamp m.content

-- The user of a response that is no error, not nil and valid.
unfoldable pub accepted : Option TokenResponse → Option String
accepted none = none
accepted (some r) = if r.valid then some r.user_id else none

unfoldable pub has_role : String → Option String → Bool
has_role wanted none = false
has_role wanted (some role) = role == wanted

module _ (C : Collection) (srv : Server) where
  open C use {State}

  unfoldable pub pull_undelivered : String → Go (World State) (Option (List ChatMessage))
  pull_undelivered user_id w =
      let (found, s) = pull_undelivered_for_user C user_id w.store in
      (done found, record w { store = s })

  unfoldable pub push_all : String → List ChatMessage → Go (World State) Unit
  push_all user_id [] = pure tt
  push_all user_id (m ∷ ms) = on_hub (get_online_client user_id) >>= λ o.
      if_some o
        (λ c. for_each (m ∷ ms) (λ x. on_hub (try_send c.conn (undelivered_payload user_id x))))
        (pure tt)

  unfoldable pub push_undelivered : String → Go (World State) Unit
  push_undelivered user_id =
      when srv.has_mongo
        (pull_undelivered user_id >>= λ found. if_some found (push_all user_id) (pure tt))

  module _ (env : Env) (k : ℕ) where
    -- What both ways to authenticate end with; `ttl` is the expiry of the online flag.
    unfoldable pub log_in : ℕ → String → Session → Go (World State) Session
    log_in ttl user_id sess =
        on_hub (register_online user_id (record { user_id = user_id; conn = k }))
        >> push_undelivered user_id
        >> redis_do srv (set (online_key user_id) "1" ttl)
        >> redis_do srv (set (last_seen_key user_id) (itoa (env.clock 0)) 0)
        >> send_json k (WsPayload.authed user_id)
        >> pure (record sess { me = some (record { user_id = user_id; conn = k }); last_seen = 0 })

    unfoldable pub refuse : String → Session → Go (World State) Session
    refuse reason sess = send_json k (WsPayload.error reason) >> pure sess

    -- `sendJSON(…); conn.Close(); break`
    unfoldable pub refuse_and_close : String → Session → Go (World State) Session
    refuse_and_close reason sess =
        send_json k (WsPayload.error reason) >> on_hub (close_conn k) >> pure sess

    -- Dev mode: the token is the user ID.
    unfoldable pub auth_dev : String → Session → Go (World State) Session
    auth_dev token sess =
        if token == "" then refuse "token required" sess else log_in 86400 token sess

    unfoldable pub is_banned : String → Bool
    is_banned user_id = srv.has_db && has_role "banned" (env.role_of user_id)

    unfoldable pub admit : Session → String → Go (World State) Session
    admit sess user_id =
        if is_banned user_id then refuse_and_close "account banned" sess else log_in 0 user_id sess

    unfoldable pub auth_service : String → Session → Go (World State) Session
    auth_service token sess =
        let sess' : Session = record sess { auth_attempts = suc sess.auth_attempts } in
        if ltb max_auth_attempts sess'.auth_attempts
        then refuse_and_close "too many auth attempts" sess'
        else if_some (accepted (env.validate token)) (admit sess') (refuse "auth failed" sess')

    unfoldable pub on_auth : String → Session → Go (World State) Session
    on_auth token sess = if srv.has_auth then auth_service token sess else auth_dev token sess
