-- ===== src/Ws/Frames.antt =====
-- One frame of a connection that logs in as one user only.
use go_chat_x.Common.{
  ℕ, suc, String, ◌≡◌, refl, ap, sym, ◌∙◌, subst, ◌⊎◌, inl, inr, false, some, All-map, arith, ltb,
  eq_iff, ◌==◌,
}
use go_chat_x.Go.{Go}
use go_chat_x.Go.Ends.{Ends, Ends-pure, Ends-if, Ends-weaken, Ends-if_some}
use go_chat_x.Protocol.{
  WsMsg, Frame, malformed, message, Kind, auth, join, leave, send, ping, unknown, kind,
}
use go_chat_x.Hub.{Hub, Client}
use go_chat_x.Hub.Live.{IsLive, Holds, AreLive, register_online-Ends, close_conn-Ends}
use go_chat_x.Storage.Documents.{Collection}
use go_chat_x.World.{Server, World, Session, Env}
use go_chat_x.Ws.Auth.{
  max_auth_attempts, accepted, log_in, refuse, refuse_and_close, auth_dev, admit, auth_service,
  on_auth,
}
use go_chat_x.Ws.Chat.{touch, on_ping}
use go_chat_x.Ws.Loop.{with_user, dispatch, on_frame}
use go_chat_x.Ws.Live.{
  LiveAt, on_hub-Ends, next, redis_do-Ends, send_json-Ends, push_undelivered-Ends, on_join-Ends,
  on_leave-Ends, on_send-Ends, on_private-Ends, on_history-Ends,
}

-- A token that authenticates at all authenticates the user `u`.
pub record LogsInAs (srv : Server) (env : Env) (u token : String) : Type 0 where
  pub in_dev : srv.has_auth ≡ false → (token ≡ "") ⊎ (token ≡ u)
  pub by_service : (v : String) → accepted (env.validate token) ≡ some v → v ≡ u

abbrev pub IsFrameOf : Server → Env → String → Frame → Type 0
IsFrameOf srv env u malformed = Unit
IsFrameOf srv env u (message m) = kind m.type ≡ auth → LogsInAs srv env u m.token

module _ (L : Client → Type 0) (new : Client) where
  -- `L`, and the client of a connection that logs in.
  abbrev pub OrNew : Client → Type 0
  OrNew c = L c ⊎ (c ≡ new)

  AreLive-OrNew : (m : _) → AreLive L m → AreLive OrNew m
  AreLive-OrNew m = All-map (Holds L) (Holds OrNew) (λ e l. inl l) m

  IsLive-OrNew : (O : ℕ → Type 0) (h : Hub) → O new.conn → IsLive L O h → IsLive OrNew O h
  IsLive-OrNew O h o v = record {
    sound = v.sound;
    online_live = AreLive-OrNew h.online v.online_live;
    member_live = λ r p e. AreLive-OrNew _ (v.member_live r p e);
    open_live = λ c l. still_open c l;
    open_all = v.open_all;
  }
    where
      still_open : (c : Client) → L c ⊎ (c ≡ new) → (h.chan c.conn).closed ≡ false
      still_open c (inl l) = v.open_live c l
      still_open c (inr e) = ap (λ d. (h.chan d.conn).closed) e ∙ v.open_all new.conn o

module _ (C : Collection) (srv : Server) (env : Env) (L : Client → Type 0) (me : Client)
    (O : ℕ → Type 0) (o : O me.conn) where
  open C use {State}

  -- After a frame the session is as before, or it is that of the client `me`.
  pub data After (sess sess' : Session) (w : World State) : Type 0 where
    kept : sess'.me ≡ sess.me → IsLive L O w.hub → After sess sess' w
    logged : sess'.me ≡ some me → IsLive (OrNew L me) O w.hub → After sess sess' w

  log_in-Ends :
      (ttl : ℕ) (u : String) (sess : Session)
      → u ≡ me.user_id
      → Ends (LiveAt C srv L me.conn O o) (log_in C srv env me.conn ttl u sess) (After sess)
  unfolding log_in
  log_in-Ends ttl u sess e =
      subst
        (λ x. Ends (LiveAt C srv L me.conn O o) (log_in C srv env me.conn ttl x sess) (After sess))
        (sym e) as_me
    where
      P : Hub → Type 0
      P = IsLive (OrNew L me) O

      as_me :
          Ends
            (LiveAt C srv L me.conn O o)
            (log_in C srv env me.conn ttl me.user_id sess)
            (After sess)
      as_me =
          Ends-weaken _ _ (λ w v. IsLive-OrNew L me O w.hub o v)
            (next P _ _
              (next P _ _
                (next P _ _
                  (next P _ _
                    (next P _ _ (on_hub-Ends _ (register_online-Ends (OrNew L me) O me (inr refl)))
                      (push_undelivered-Ends C srv (OrNew L me) me.conn O o me.user_id))
                    (redis_do-Ends P srv _))
                  (redis_do-Ends P srv _))
                (send_json-Ends C srv (OrNew L me) me.conn O o _))
              (Ends-pure _ (λ w v. logged refl v)))

  refuse-Ends :
      (reason : String) (before sess : Session)
      → sess.me ≡ before.me
      → Ends (LiveAt C srv L me.conn O o) (refuse C srv env me.conn reason sess) (After before)
  unfolding refuse
  refuse-Ends reason before sess e =
      next (IsLive L O) _ _ (send_json-Ends C srv L me.conn O o _)
        (Ends-pure sess (λ w v. kept e v))

  refuse_and_close-Ends :
      (reason : String) (before sess : Session)
      → sess.me ≡ before.me
      → Ends
          (LiveAt C srv L me.conn O o)
          (refuse_and_close C srv env me.conn reason sess)
          (After before)
  unfolding refuse_and_close
  refuse_and_close-Ends reason before sess e =
      next (IsLive L O) _ _
        (next (IsLive L O) _ _ (send_json-Ends C srv L me.conn O o _)
          (on_hub-Ends _ (close_conn-Ends L O me.conn)))
        (Ends-pure sess (λ w v. kept e v))

  After-from :
      (a b sess' : Session) (w : World State) → a.me ≡ b.me → After a sess' w → After b sess' w
  After-from a b sess' w e (kept f v) = kept (f ∙ e) v
  After-from a b sess' w e (logged f v) = logged f v

  admit-Ends :
      (before sess : Session) (u : String)
      → sess.me ≡ before.me
      → u ≡ me.user_id
      → Ends (LiveAt C srv L me.conn O o) (admit C srv env me.conn sess u) (After before)
  unfolding admit
  admit-Ends before sess u e same =
      Ends-if _ _ _ (λ _. refuse_and_close-Ends "account banned" before sess e)
        (λ _. record {
          at = λ w v.
              let (sess', r, q) = (log_in-Ends 0 u sess same).at w v in
              (sess', r, After-from sess before sess' _ e q);
        })

  auth_dev-Ends :
      (token : String) (sess : Session)
      → (token ≡ "") ⊎ (token ≡ me.user_id)
      → Ends (LiveAt C srv L me.conn O o) (auth_dev C srv env me.conn token sess) (After sess)
  unfolding auth_dev
  auth_dev-Ends token sess h =
      Ends-if _ _ _ (λ _. refuse-Ends _ sess sess refl)
        (λ given. log_in-Ends 86400 token sess (user_of h given))
    where
      user_of : (token ≡ "") ⊎ (token ≡ me.user_id) → (token == "") ≡ false → token ≡ me.user_id
      user_of (inl e) given = absurd (ground (arith, ltb, eq_iff token ""))
      user_of (inr e) given = e

  auth_service-Ends :
      (token : String) (sess : Session)
      → ((v : String) → accepted (env.validate token) ≡ some v → v ≡ me.user_id)
      → Ends (LiveAt C srv L me.conn O o) (auth_service C srv env me.conn token sess) (After sess)
  unfolding auth_service
  auth_service-Ends token sess h =
      let sess' : Session = record sess { auth_attempts = suc sess.auth_attempts } in
      Ends-if (ltb max_auth_attempts sess'.auth_attempts) _ _
        (λ _. refuse_and_close-Ends _ sess sess' refl)
        (λ _.
          Ends-if_some _ _ _ (λ u e. admit-Ends sess sess' u refl (h u e))
            (λ _. refuse-Ends _ sess sess' refl))

  on_auth-Ends :
      (token : String) (sess : Session)
      → LogsInAs srv env me.user_id token
      → Ends (LiveAt C srv L me.conn O o) (on_auth C srv env me.conn token sess) (After sess)
  unfolding on_auth
  on_auth-Ends token sess h =
      Ends-if _ _ _ (λ _. auth_service-Ends token sess h.by_service)
        (λ dev. auth_dev-Ends token sess (h.in_dev dev))

  with_user-Ends :
      (sess : Session) (missing : Go (World State) Unit) (body : Client → Go (World State) Unit)
      → ((c : Client) → sess.me ≡ some c → L c)
      → Ends (LiveAt C srv L me.conn O o) missing (λ _. LiveAt C srv L me.conn O o)
      → ((c : Client)
          → L c
          → Ends (LiveAt C srv L me.conn O o) (body c) (λ _. LiveAt C srv L me.conn O o))
      → Ends
          (LiveAt C srv L me.conn O o)
          (with_user C srv env me.conn sess missing body)
          (After sess)
  unfolding with_user
  with_user-Ends sess missing body held em eb =
      next (IsLive L O) _ _ (Ends-if_some _ _ _ (λ c e. eb c (held c e)) (λ _. em))
        (Ends-pure sess (λ w v. kept refl v))

  module _ (sess : Session) (held : (c : Client) → sess.me ≡ some c → L c) where
    on_ping-Ends : Ends (LiveAt C srv L me.conn O o) (on_ping C srv env me.conn sess) (After sess)
    unfolding on_ping touch
    on_ping-Ends = next (IsLive L O) _ _ (send_json-Ends C srv L me.conn O o _) (
        Ends-if_some _ _ _
          (λ c e. next (IsLive L O) _ _ (redis_do-Ends _ srv _) (Ends-pure _ (λ w v. kept refl v)))
          (λ _. Ends-pure sess (λ w v. kept refl v)))

    dispatch-Ends :
        (c : Kind) (m : WsMsg)
        → (c ≡ auth → LogsInAs srv env me.user_id m.token)
        → Ends (LiveAt C srv L me.conn O o) (dispatch C srv env me.conn c m sess) (After sess)
    unfolding dispatch
    dispatch-Ends auth m h = on_auth-Ends m.token sess (h refl)
    dispatch-Ends join m h =
        with_user-Ends sess _ _ held (send_json-Ends C srv L me.conn O o _)
          (λ c l. on_join-Ends C srv L me.conn O o env m.room_id c l)
    dispatch-Ends leave m h =
        with_user-Ends sess _ _ held (Ends-pure tt (λ w v. v))
          (λ c l. on_leave-Ends C srv L me.conn O o env m.room_id c)
    dispatch-Ends send m h =
        with_user-Ends sess _ _ held (send_json-Ends C srv L me.conn O o _)
          (λ c l. on_send-Ends C srv L me.conn O o env m.room_id m.content c)
    dispatch-Ends Kind.private m h =
        with_user-Ends sess _ _ held (send_json-Ends C srv L me.conn O o _)
          (λ c l. on_private-Ends C srv L me.conn O o env m.to m.content c)
    dispatch-Ends Kind.history m h =
        with_user-Ends sess _ _ held (send_json-Ends C srv L me.conn O o _)
          (λ c l. on_history-Ends C srv L me.conn O o env m.room_id m.limit c)
    dispatch-Ends ping m h = on_ping-Ends
    dispatch-Ends unknown m h =
        next (IsLive L O) _ _ (send_json-Ends C srv L me.conn O o _)
          (Ends-pure sess (λ w v. kept refl v))

    pub on_frame-Ends :
        (f : Frame)
        → IsFrameOf srv env me.user_id f
        → Ends (LiveAt C srv L me.conn O o) (on_frame C srv env me.conn f sess) (After sess)
    unfolding on_frame
    on_frame-Ends malformed h =
        next (IsLive L O) _ _ (send_json-Ends C srv L me.conn O o _)
          (Ends-pure sess (λ w v. kept refl v))
    on_frame-Ends (message m) h = dispatch-Ends (kind m.type) m h
