-- ===== src/System/Whole.antt =====
-- HandleWS as one function, and as the events of its connection one after the other.
use go_chat_x.Common.{true, ℕ, ◌≡◌, ap, ◌∙◌, List, [], ◌∷◌, arith, update}
use go_chat_x.Go.{Go, Result, done, panic, pure, ◌>>=◌}
use go_chat_x.Protocol.{Frame}
use go_chat_x.Storage.Documents.{Collection}
use go_chat_x.World.{Server, World, Session, Env, no_session}
use go_chat_x.Ws.Loop.{on_frame, read_loop, cleanup, deferred, finally, handle_ws}
use go_chat_x.System.{
  Phase, idle, reading, waiting, crashed, System, Event, connect, frame, hang_up, finish, settle,
  settle_end, step_at, step, run, connection,
}

-- The frames of a connection, then its end.
unfoldable pub events_of : ℕ → List (Env × Frame) → Env → List Event
events_of k [] last = hang_up k last ∷ finish k ∷ []
events_of k ((env, f) ∷ rest) last = frame k env f ∷ events_of k rest last

update_self : {A : Type 0} (f : ℕ → A) (k : ℕ) (x : A) → update f k x k ≡ x
update_self f k x = ground arith

module _ (C : Collection) (srv : Server) (k : ℕ) (last : Env) where
  open C use {State}

  -- What remains of the handler when it is in the read loop.
  abbrev rest_of : List (Env × Frame) → Session → Go (World State) Unit
  rest_of frames sess = read_loop C srv k frames sess >>= λ sess'. cleanup C srv last k sess'

  at :
      (e : Event) (s : System State) (p : Phase)
      → s.phase (connection C srv e) ≡ p
      → step C srv e s ≡ step_at C srv e p s
  unfolding step
  at e s p q = ap (λ p'. step_at C srv e p' s) q

  -- A connection that has panicked does nothing more.
  crashed_lem :
      (frames : List (Env × Frame)) (s : System State)
      → s.phase k ≡ crashed
      → (run C srv (events_of k frames last) s).world ≡ s.world
  unfolding run events_of step_at connection
  crashed_lem [] s e =
      ap (λ t. (step C srv (finish k) t).world) (at (hang_up k last) s crashed e)
      ∙ ap (λ t. t.world) (at (finish k) s crashed e)
  crashed_lem ((env, f) ∷ rest) s e =
      ap (λ t. (run C srv (events_of k rest last) t).world) (at (frame k env f) s crashed e)
      ∙ crashed_lem rest s e

  ended_lem :
      (p : Result (Unit {0}) × World State) (s : System State)
      → s.phase k ≡ reading
      → (run C srv (finish k ∷ []) (settle_end C srv k p s)).world ≡ (deferred C srv k p.1).1
  unfolding run step_at connection settle_end
  ended_lem (done _, w) s e =
      ap (λ t. t.world) (at (finish k) _ waiting (update_self s.phase k waiting))
  ended_lem (panic, w) s e =
      ap (λ t. t.world) (at (finish k) _ crashed (update_self s.phase k crashed))

  -- The world after the events from `s` is that after the rest of the handler.
  abbrev Agrees : List (Env × Frame) → System State → Type 0
  Agrees frames s =
      (run C srv (events_of k frames last) s).world
      ≡ (deferred C srv k (rest_of frames (s.session k) s.world).1).1

  settled_lem :
      (rest : List (Env × Frame)) (p : Result Session × World State) (s : System State)
      → s.phase k ≡ reading
      → ((t : System State) → t.phase k ≡ reading → Agrees rest t)
      → (run C srv (events_of k rest last) (settle C srv k p s)).world
        ≡ (deferred C srv k
            ((((λ (_ : World State). p) >>= read_loop C srv k rest) >>= cleanup C srv last k)
              s.world).1).1
  unfolding settle ◌>>=◌
  settled_lem rest (done sess, w) s e ih =
      ih _ e ∙ ap (λ x. (deferred C srv k (rest_of rest x w).1).1) (update_self s.session k sess)
  settled_lem rest (panic, w) s e ih = crashed_lem rest _ (update_self s.phase k crashed)

  loop_lem :
      (frames : List (Env × Frame)) (s : System State) → s.phase k ≡ reading → Agrees frames s
  unfolding run events_of step_at connection read_loop ◌>>=◌ pure
  loop_lem [] s e =
      ap (λ t. (step C srv (finish k) t).world) (at (hang_up k last) s reading e)
      ∙ ended_lem (cleanup C srv last k (s.session k) s.world) s e
  loop_lem ((env, f) ∷ rest) s e =
      ap (λ t. (run C srv (events_of k rest last) t).world) (at (frame k env f) s reading e)
      ∙ settled_lem rest (on_frame C srv env k f (s.session k) s.world) s e (loop_lem rest)

  -- A connection that is served alone, from its first frame to its end, leaves the world that
  -- HandleWS leaves: the events `connect`, one `frame` for each frame, `hang_up` and `finish` are
  -- the handler cut into pieces, also where it panics.
  pub run-handle_ws :
      (frames : List (Env × Frame)) (s : System State)
      → s.phase k ≡ idle
      → (run C srv (connect k ∷ events_of k frames last) s).world
        ≡ (handle_ws C srv k frames last s.world).1
  unfolding run handle_ws finally step_at connection
  run-handle_ws frames s e =
      let t : System State = record s {
        phase = update s.phase k reading;
        session = update s.session k no_session;
        writing = update s.writing k true;
      } in
      ap (λ x. (run C srv (events_of k frames last) x).world) (at (connect k) s idle e)
      ∙ loop_lem frames t (update_self s.phase k reading)
      ∙ ap (λ x. (deferred C srv k (rest_of frames x s.world).1).1)
          (update_self s.session k no_session)
