-- ===== src/System/Arrives.antt =====
-- From one socket to the others: a message to a room is written to every member.
use mathlib.Core.List.{Mem, append-nil, mem-append_left, mem-append_right, mem-cons_self}
use go_chat_x.Common.{
  ℕ, ◌≤◌, ◌<◌, String, ◌≡◌, refl, sym, ap, ◌∙◌, subst, true, some, List, [], ◌∷◌, ◌++◌, arith, All,
  length, false,
}
use go_chat_x.GoMap.{lookup}
use go_chat_x.GoMap.Laws.{All-lookup}
use go_chat_x.Go.{Go, done, bind_then, pure, if_some, if_some-some}
use go_chat_x.Protocol.{WsMsg, WsPayload, Kind, message, kind, send}
use go_chat_x.Hub.{Client, Hub, chan_size, offer, members}
use go_chat_x.Hub.Lemmas.{sent}
use go_chat_x.Hub.Leads.{sent-Leads}
use go_chat_x.Hub.Live.{Holds}
use go_chat_x.Storage.Documents.{Collection}
use go_chat_x.World.{Server, World, Env, send_json}
use go_chat_x.Ws.Chat.{not_authenticated, on_send, on_private}
use go_chat_x.Ws.Online.{on_private-online}
use go_chat_x.Ws.Loop.{on_frame, dispatch, with_user}
use go_chat_x.System.{Event, frame, reading, System, start, settle, step, step_at, run, connection}
use go_chat_x.System.Fifo.{queue, written, turns, serves, writes_to, run-written}
use go_chat_x.System.Once.{has_conn, told, run-on_send}
use go_chat_x.System.Safe.{IsEventOf, run_from-IsServing, start-IsServing}
use go_chat_x.System.Live.{is_over, Registered, IsServing-IsLive}

module _ (C : Collection) (srv : Server) where
  open C use {State}

  run-append :
      (es : List Event) (e : Event) (s : System State)
      → run C srv (es ++ e ∷ []) s ≡ step C srv e (run C srv es s)
  unfolding run
  run-append [] e s = refl
  run-append (x ∷ es) e s = run-append es e _

  module _ (s : System State) (k : ℕ) (env : Env) (m : WsMsg) (me : Client) (w : World State)
      (body : Client → Go (World State) Unit) (reads : s.phase k ≡ reading)
      (signed : (s.session k).me ≡ some me) (ends : body me s.world ≡ (done tt, w))
      (cases : dispatch C srv env k (kind m.type) m (s.session k)
        ≡ with_user C srv env k (s.session k) (send_json k not_authenticated) body) where
    body_frame : on_frame C srv env k (message m) (s.session k) s.world ≡ (done (s.session k), w)
    unfolding on_frame with_user pure
    body_frame =
        let sess = s.session k in
        let missing = send_json k not_authenticated in
        ap (λ f. f s.world) cases
        ∙ bind_then (if_some sess.me body missing) (pure sess)
            (ap (λ f. f s.world) (if_some-some sess.me body missing me signed) ∙ ends) refl

    -- The frame of a case that needs a user, when there is one and its body ends.
    body_step-world : (step C srv (frame k env (message m)) s).world ≡ w
    unfolding step step_at settle connection
    body_step-world =
        ap (λ p. (step_at C srv (frame k env (message m)) p s).world) reads
        ∙ ap (λ r. (settle C srv k r s).world) body_frame

  -- What waits in a channel after an event that is no write is written.
  waits-written :
      (store : State) (before after : List Event) (e : Event) (j : ℕ) (b : WsPayload)
      → serves C srv j e (run C srv before (start store)) ≡ false
      → chan_size ≤ turns C srv j after (step C srv e (run C srv before (start store)))
      → Mem b (queue C srv j (step C srv e (run C srv before (start store))))
      → Mem b (written C srv j (e ∷ after) (run C srv before (start store)))
  unfolding written
  waits-written store before after e j b other enough waits =
      let s = run C srv before (start store) in
      let (more, drained) = run-written C srv store (before ++ e ∷ []) after j (
        subst (λ t. chan_size ≤ turns C srv j after t) (sym (run-append before e (start store)))
          enough) in
      let out : written C srv j after (step C srv e s) ≡ queue C srv j (step C srv e s) ++ more =
        subst (λ t. written C srv j after t ≡ queue C srv j t ++ more)
          (run-append before e (start store)) drained in
      rw other (subst (Mem b) (sym out) (mem-append_left more waits))

  told_queue :
      (j : ℕ) (cs : List Client) (b : WsPayload) (h : Hub)
      → has_conn j cs ≡ true
      → length (h.chan j).buf < chan_size
      → ((told cs b h).chan j).buf ≡ (h.chan j).buf ++ b ∷ []
  unfolding told offer
  told_queue j cs b h member room = ground arith

  sent_queue :
      (j : ℕ) (b : WsPayload) (h : Hub)
      → length (h.chan j).buf < chan_size
      → ((sent j b h).chan j).buf ≡ (h.chan j).buf ++ b ∷ []
  unfolding sent offer
  sent_queue j b h room = ground arith

  -- A further send takes nothing out.
  sent-mem :
      (k j : ℕ) (a b : WsPayload) (h : Hub) → Mem b (h.chan j).buf → Mem b ((sent k a h).chan j).buf
  sent-mem k j a b h waits =
      let more =
        sent-Leads j (h.chan j).buf k a h
          (record { later = []; split = sym (append-nil (h.chan j).buf) }) in
      subst (Mem b) (sym more.split) (mem-append_left more.later waits)

  -- With MongoDB, and if every connection logs in as one user at most: after any order of events,
  -- let a signed-in connection send a message to a room of the table. Each connection that is a
  -- member, and whose channel is not full, gets the message written to its socket, if its write
  -- goroutine then has 256 turns in which the network refuses no write and the server has not
  -- closed the connection, whatever else happens meanwhile.
  pub send-written :
      (user : ℕ → String) (store : State) (before after : List Event) (k j p : ℕ) (env : Env)
      (m : WsMsg) (me : Client)
      → srv.has_mongo ≡ true
      → All (IsEventOf C srv user) before
      → (run C srv before (start store)).phase k ≡ reading
      → ((run C srv before (start store)).session k).me ≡ some me
      → kind m.type ≡ send
      → lookup m.room_id (run C srv before (start store)).world.hub.rooms ≡ some p
      → has_conn j (members p (run C srv before (start store)).world.hub) ≡ true
      → length (queue C srv j (run C srv before (start store))) < chan_size
      → chan_size
        ≤ turns C srv j after
            (step C srv (frame k env (message m)) (run C srv before (start store)))
      → Mem
          (WsPayload.chat me.user_id m.room_id (env.clock 0) m.content)
          (written C srv j (frame k env (message m) ∷ after) (run C srv before (start store)))
  unfolding serves writes_to dispatch
  send-written user store before after k j p env m me mongo own reads signed is_send found member
        room enough =
      let s = run C srv before (start store) in
      let e = frame k env (message m) in
      let b = WsPayload.chat me.user_id m.room_id (env.clock 0) m.content in
      let ends =
        run-on_send C srv user store before mongo own env k m.room_id m.content me p found in
      let world =
        body_step-world s k env m me _ (on_send C srv env k m.room_id m.content) reads signed ends
          (ap (λ c. dispatch C srv env k c m (s.session k)) is_send) in
      let queued : queue C srv j (step C srv e s) ≡ queue C srv j s ++ b ∷ [] =
        ap (λ (w : World State). (w.hub.chan j).buf) world
        ∙ told_queue j (members p s.world.hub) b s.world.hub member room in
      waits-written store before after e j b refl enough
        (subst (Mem b) (sym queued) (mem-append_right (queue C srv j s) mem-cons_self))

  -- With MongoDB, and if every connection logs in as one user at most: after any order of events,
  -- let a signed-in connection send a private message to a user who is online, and whose channel is
  -- not full. The message is written to the socket of that user, if its write goroutine then has
  -- 256 turns in which the network refuses no write and the server has not closed the connection,
  -- whatever else happens meanwhile.
  pub private-written :
      (user : ℕ → String) (store : State) (before after : List Event) (k : ℕ) (env : Env)
      (m : WsMsg) (me target : Client)
      → srv.has_mongo ≡ true
      → All (IsEventOf C srv user) before
      → (run C srv before (start store)).phase k ≡ reading
      → ((run C srv before (start store)).session k).me ≡ some me
      → kind m.type ≡ Kind.private
      → lookup m.to (run C srv before (start store)).world.hub.online ≡ some target
      → length (queue C srv target.conn (run C srv before (start store))) < chan_size
      → chan_size
        ≤ turns C srv target.conn after
            (step C srv (frame k env (message m)) (run C srv before (start store)))
      → Mem (WsPayload.private me.user_id m.to (env.clock 0) m.content) (
          written C srv target.conn
            (frame k env (message m) ∷ after)
            (run C srv before (start store)))
  unfolding serves writes_to dispatch is_over
  private-written user store before after k env m me target mongo own reads signed is_private there
        room enough =
      let s = run C srv before (start store) in
      let e = frame k env (message m) in
      let b = WsPayload.private me.user_id m.to (env.clock 0) m.content in
      let v =
        run_from-IsServing C srv user before (start store) own (start-IsServing C srv user store) in
      let live = IsServing-IsLive v in
      let (_, registered) =
        All-lookup (Holds (Registered s)) m.to target s.world.hub.online there v.online_live in
      let ends =
        on_private-online C srv env k m.to m.content me target s.world mongo there
          (live.open_live target registered) (live.open_all k (ap is_over reads)) in
      let world =
        body_step-world s k env m me _ (on_private C srv env k m.to m.content) reads signed ends
          (ap (λ c. dispatch C srv env k c m (s.session k)) is_private) in
      let first : Mem b ((sent target.conn b s.world.hub).chan target.conn).buf =
        subst (Mem b) (sym (sent_queue target.conn b s.world.hub room))
          (mem-append_right (queue C srv target.conn s) mem-cons_self) in
      waits-written store before after e target.conn b refl enough (
        subst (Mem b) (sym (ap (λ (w : World State). (w.hub.chan target.conn).buf) world))
          (sent-mem k target.conn (WsPayload.ack m.to) b _ first))
