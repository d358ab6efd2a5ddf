-- ===== src/Ws/Acts/Frames.antt =====
-- A frame changes who is online and who is in which room as it means to, and no other way.
use go_chat_x.Common.{ℕ, Option, none, some}
use go_chat_x.Go.{Go}
use go_chat_x.Go.Turns.{Turns, Turns-keeps, Turns-then, Turns-if_some}
use go_chat_x.Protocol.{
  WsMsg, Frame, malformed, message, Kind, auth, join, leave, send, ping, unknown, kind,
}
use go_chat_x.Hub.{Client}
use go_chat_x.Hub.View.{Chat}
use go_chat_x.Storage.Documents.{Collection}
use go_chat_x.World.{Server, World, Session, Env}
use go_chat_x.Ws.Loop.{with_user, dispatch, on_frame}
use go_chat_x.Ws.Holds.{on_send-OnHub, on_private-OnHub, on_history-OnHub, on_ping-OnHub}
use go_chat_x.Ws.Acts.{entered, exited, kind_action, frame_action}
use go_chat_x.Ws.Acts.Turn.{Showing, on_auth-Turns, calm_rules}
use go_chat_x.Ws.Acts.Rooms.{on_join-Turns, on_leave-Turns}

module _ (C : Collection) (srv : Server) (env : Env) (k : ℕ) (c : Chat) where
  open C use {State}

  with_user-Turns :
      (act : Option Client → Chat) (sess : Session) (missing : Go (World State) Unit)
      (body : Client → Go (World State) Unit)
      → ((me : Client) → Turns (Showing c) (Showing (act (some me))) (body me))
      → Turns (Showing c) (Showing (act none)) missing
      → Turns (Showing c) (Showing (act sess.me)) (with_user C srv env k sess missing body)
  unfolding with_user
  with_user-Turns act sess missing body tb tm =
      Turns-then _ _ (Turns-if_some (λ o. Showing (act o)) sess.me body missing tb tm)
        (λ _. search calm_rules)

  ruleset calm_cases =
      (Turns-keeps, calm_rules, on_send-OnHub, on_private-OnHub, on_history-OnHub, on_ping-OnHub)

  dispatch-Turns :
      (kd : Kind) (m : WsMsg) (sess : Session)
      → Turns
          (Showing c)
          (Showing (kind_action srv env k kd m sess c))
          (dispatch C srv env k kd m sess)
  unfolding dispatch kind_action entered exited
  dispatch-Turns auth m sess = on_auth-Turns C srv env k c m.token sess
  dispatch-Turns join m sess =
      with_user-Turns (λ o. entered m.room_id o c) sess _ _ (on_join-Turns C srv env k c m.room_id)
        (search calm_cases)
  dispatch-Turns leave m sess =
      with_user-Turns (λ o. exited m.room_id o c) sess _ _ (on_leave-Turns C srv env k c m.room_id)
        (search calm_cases)
  dispatch-Turns send m sess =
      with_user-Turns (λ _. c) sess _ _ (λ me. search calm_cases) (search calm_cases)
  dispatch-Turns Kind.private m sess =
      with_user-Turns (λ _. c) sess _ _ (λ me. search calm_cases) (search calm_cases)
  dispatch-Turns Kind.history m sess =
      with_user-Turns (λ _. c) sess _ _ (λ me. search calm_cases) (search calm_cases)
  dispatch-Turns ping m sess = search calm_cases
  dispatch-Turns unknown m sess = search calm_cases

  pub on_frame-Turns :
      (f : Frame) (sess : Session)
      → Turns (Showing c) (Showing (frame_action srv env k f sess c)) (on_frame C srv env k f sess)
  unfolding on_frame frame_action
  on_frame-Turns malformed sess = search calm_cases
  on_frame-Turns (message m) sess = dispatch-Turns (kind m.type) m sess
