-- ===== src/Ws/Limits.antt =====
-- The limit on attempts to authenticate, and the users that are banned.
use go_chat_x.Common.{
  ℕ, suc, ◌≤◌, String, ◌≡◌, refl, ap, ◌∙◌, Bool, true, false, some, arith, ltb, if◌then◌else◌,
}
use go_chat_x.Go.{done, pure, if_some, modify, ◌>>=◌}
use go_chat_x.Protocol.{WsMsg, message, WsPayload, auth, kind}
use go_chat_x.Hub.{close_conn}
use go_chat_x.Hub.Lemmas.{sent}
use go_chat_x.Common.{update}
use go_chat_x.Storage.Documents.{Collection}
use go_chat_x.World.{Server, World, Session, Env, on_hub}
use go_chat_x.Ws.Auth.{
  max_auth_attempts, accepted, refuse_and_close, admit, auth_dev, auth_service, on_auth, has_role,
  is_banned,
}
use go_chat_x.Ws.Loop.{dispatch, on_frame}
use go_chat_x.Ws.Gate.{send_json_open}

-- The error is in the channel and the connection is closed; nothing else has changed.
unfoldable pub turned_away : {S : Type 0} → ℕ → String → World S → World S
turned_away k reason w =
    let h = sent k (WsPayload.error reason) w.hub in
    record w { hub = record h { shut = update h.shut k true } }

abbrev pub one_more : Session → Session
one_more sess = record sess { auth_attempts = suc sess.auth_attempts }

over : {n : ℕ} → max_auth_attempts ≤ n → ltb max_auth_attempts (suc n) ≡ true
over many = ground (arith, ltb)

under : {n : ℕ} → suc n ≤ max_auth_attempts → ltb max_auth_attempts (suc n) ≡ false
under few = ground (arith, ltb)

module _ (C : Collection) (srv : Server) (env : Env) (k : ℕ) where
  open C use {State}

  refuse_and_close_lem :
      (reason : String) (sess : Session) (w : World State)
      → (w.hub.chan k).closed ≡ false
      → refuse_and_close C srv env k reason sess w ≡ (done sess, turned_away k reason w)
  unfolding refuse_and_close turned_away ◌>>=◌ pure on_hub close_conn modify
  refuse_and_close_lem reason sess w e = rw (send_json_open k (WsPayload.error reason) w e) refl

  -- A frame "auth" is judged by the auth service, where there is one.
  on_frame-auth :
      (m : WsMsg) (sess : Session) (w : World State)
      → srv.has_auth ≡ true
      → kind m.type ≡ auth
      → on_frame C srv env k (message m) sess w ≡ auth_service C srv env k m.token sess w
  unfolding on_frame dispatch on_auth
  on_frame-auth m sess w service is_auth =
      ap (λ c. dispatch C srv env k c m sess w) is_auth
      ∙ ap
          (λ (b : Bool).
            (if b then auth_service C srv env k m.token sess else auth_dev C srv env k m.token sess)
              w)
          service

  -- With an auth service, a frame "auth" after three attempts never logs in, whatever its token:
  -- the connection, whose channel is open, gets an error and is closed, and nothing else changes
  -- but the count of attempts.
  pub on_frame-too_many :
      (m : WsMsg) (sess : Session) (w : World State)
      → srv.has_auth ≡ true
      → kind m.type ≡ auth
      → max_auth_attempts ≤ sess.auth_attempts
      → (w.hub.chan k).closed ≡ false
      → on_frame C srv env k (message m) sess w
        ≡ (done (one_more sess), turned_away k "too many auth attempts" w)
  unfolding auth_service
  on_frame-too_many m sess w service is_auth many e =
      on_frame-auth m sess w service is_auth
      ∙ (rw (over many) (refuse_and_close_lem _ (one_more sess) w e))

  -- With an auth service and a database, and within the limit of attempts, a user with the role
  -- "banned" is never registered, even with a valid token: the connection, whose channel is open,
  -- gets an error and is closed, and nothing else changes but the count.
  pub on_frame-banned :
      (m : WsMsg) (sess : Session) (w : World State) (u : String)
      → srv.has_auth ≡ true
      → srv.has_db ≡ true
      → kind m.type ≡ auth
      → suc sess.auth_attempts ≤ max_auth_attempts
      → accepted (env.validate m.token) ≡ some u
      → env.role_of u ≡ some "banned"
      → (w.hub.chan k).closed ≡ false
      → on_frame C srv env k (message m) sess w
        ≡ (done (one_more sess), turned_away k "account banned" w)
  unfolding auth_service if_some admit is_banned has_role
  on_frame-banned m sess w u service db is_auth few valid banned e =
      on_frame-auth m sess w service is_auth
      ∙ (rw (under few, valid, in_ban_list) (refuse_and_close_lem _ (one_more sess) w e))
    where
      in_ban_list : is_banned C srv env k u ≡ true
      in_ban_list = rw (db, banned) refl
