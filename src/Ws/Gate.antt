-- ===== src/Ws/Gate.antt =====
-- What a connection may do before it has authenticated.
use go_chat_x.Common.{ℕ, ◌≡◌, ◌≢◌, refl, ap, ◌∙◌, false, Option, none, some}
use go_chat_x.Go.{Go, ◌>>◌, done, pure, if_some-none, ◌>>=◌, bind_done}
use go_chat_x.Protocol.{
  WsMsg, Frame, malformed, message, WsPayload, Kind, auth, join, leave, send, ping, unknown, kind,
}
use go_chat_x.Hub.{Client}
use go_chat_x.Hub.Lemmas.{sent, try_send_open}
use go_chat_x.Storage.Documents.{Collection}
use go_chat_x.World.{Server, World, Session, Env, on_hub, send_json}
use go_chat_x.Ws.Chat.{not_authenticated, on_ping}
use go_chat_x.Ws.Loop.{with_user, dispatch, on_frame}

-- The frame is no attempt to authenticate.
abbrev pub IsOther : Frame → Type 0
IsOther malformed = Unit
IsOther (message m) = kind m.type ≢ auth

-- The answer to such a frame; "leave" has none.
unfoldable pub answer_to : Env → Kind → Option WsPayload
answer_to env auth = none
answer_to env leave = none
answer_to env ping = some (WsPayload.pong (env.clock 0))
answer_to env unknown = some (WsPayload.error "未知类型")
answer_to env _ = some not_authenticated

unfoldable pub answer : Env → Frame → Option WsPayload
unfolding answer_to
answer env malformed = some (WsPayload.error "invalid message format")
answer env (message m) = answer_to env (kind m.type)

unfoldable pub answered : {S : Type 0} → ℕ → Option WsPayload → World S → World S
answered k none w = w
answered k (some b) w = record w { hub = sent k b w.hub }

module _ {S : Type 0} where
  pub send_json_open :
      (k : ℕ) (b : WsPayload) (w : World S)
      → (w.hub.chan k).closed ≡ false
      → send_json k b w ≡ (done tt, record w { hub = sent k b w.hub })
  unfolding send_json on_hub
  send_json_open k b w e = rw (try_send_open k b w.hub e) refl

module _ (C : Collection) (srv : Server) (env : Env) (k : ℕ) where
  open C use {State}

  module _ (sess : Session) (w : World State) (nobody : sess.me ≡ none)
      (is_open : (w.hub.chan k).closed ≡ false) where
    then_pure :
        (b : WsPayload)
        → (send_json k b >>= λ _. pure sess) w ≡ (done sess, record w { hub = sent k b w.hub })
    unfolding pure
    then_pure b = bind_done (send_json k b) (λ _. pure sess) w _ tt (send_json_open k b w is_open)

    -- The body of a case that needs a user is skipped.
    skipped :
        (missing : Go (World State) Unit) (body : Client → Go (World State) Unit)
        → with_user C srv env k sess missing body w ≡ (missing >> pure sess) w
    unfolding with_user
    skipped missing body = ap (λ m. (m >> pure sess) w) (if_some-none sess.me body missing nobody)

    refused :
        (body : Client → Go (World State) Unit)
        → with_user C srv env k sess (send_json k not_authenticated) body w
          ≡ (done sess, record w { hub = sent k not_authenticated w.hub })
    refused body = skipped (send_json k not_authenticated) body ∙ then_pure not_authenticated

    pinged :
        on_ping C srv env k sess w
        ≡ (done sess, record w { hub = sent k (WsPayload.pong (env.clock 0)) w.hub })
    unfolding on_ping pure
    pinged =
        let b = WsPayload.pong (env.clock 0) in
        let w' : World State = record w { hub = sent k b w.hub } in
        bind_done (send_json k b) _ w w' tt (send_json_open k b w is_open)
        ∙ ap (λ (m : Go (World State) Session). m w') (if_some-none sess.me _ (pure sess) nobody)

    dispatch_unauthenticated :
        (c : Kind) (m : WsMsg)
        → c ≢ auth
        → dispatch C srv env k c m sess w ≡ (done sess, answered k (answer_to env c) w)
    unfolding dispatch answer_to answered pure ◌>>=◌
    dispatch_unauthenticated auth m other = absurd (other refl)
    dispatch_unauthenticated join m other = refused _
    dispatch_unauthenticated leave m other = skipped (pure tt) _
    dispatch_unauthenticated send m other = refused _
    dispatch_unauthenticated Kind.private m other = refused _
    dispatch_unauthenticated Kind.history m other = refused _
    dispatch_unauthenticated ping m other = pinged
    dispatch_unauthenticated unknown m other = then_pure _

    -- While its channel is open, a connection that has not authenticated changes nothing by a
    -- frame that is no "auth": it gets the answer that its frame has, stays without a user, and
    -- everything else is as before.
    pub on_frame_unauthenticated :
        (f : Frame)
        → IsOther f
        → on_frame C srv env k f sess w ≡ (done sess, answered k (answer env f) w)
    unfolding on_frame answer answered
    on_frame_unauthenticated malformed other = then_pure _
    on_frame_unauthenticated (message m) other = dispatch_unauthenticated (kind m.type) m other
