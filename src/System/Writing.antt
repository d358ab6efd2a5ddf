-- ===== src/System/Writing.antt =====
-- The write goroutine of a connection: it begins with the connection, and when it has ended it does
-- not begin again.
use go_chat_x.Common.{ℕ, ◌≡◌, ◌≢◌, refl, Bool, true, false, List, [], ◌∷◌, arith}
use go_chat_x.Go.{Result, done, panic}
use go_chat_x.Storage.Documents.{Collection}
use go_chat_x.World.{Server, World, Session}
use go_chat_x.System.{
  Phase, idle, reading, waiting, Event, connect, frame, hang_up, finish, write, save, System, start,
  settle, settle_end, write_turn, step_at, step, run, connection,
}

-- The write goroutine of `k` has ended.
pub record HasEnded {S : Type 0} (k : ℕ) (s : System S) : Type 0 where
  pub begun : s.phase k ≢ idle
  pub over : s.writing k ≡ false

-- Before a connection is accepted it has no write goroutine.
abbrev pub HasBegun : {S : Type 0} → System S → Type 0
HasBegun s = (k : ℕ) → s.phase k ≡ idle → s.writing k ≡ false

module _ (C : Collection) (srv : Server) where
  open C use {State}

  settle-HasBegun :
      (k : ℕ) (r : Result Session) (w : World State) (s : System State)
      → HasBegun s
      → HasBegun (settle C srv k (r, w) s)
  unfolding settle
  settle-HasBegun k (done sess) w s v = v
  settle-HasBegun k panic w s v = λ j e. ground (arith, v j)

  settle_end-HasBegun :
      (k : ℕ) (r : Result (Unit {0})) (w : World State) (s : System State)
      → HasBegun s
      → HasBegun (settle_end C srv k (r, w) s)
  unfolding settle_end
  settle_end-HasBegun k (done _) w s v = λ j e. ground (arith, v j)
  settle_end-HasBegun k panic w s v = λ j e. ground (arith, v j)

  write_turn-HasBegun :
      (k : ℕ) (fails runs : Bool) (s : System State)
      → s.writing k ≡ runs
      → HasBegun s
      → HasBegun (write_turn k fails runs s)
  unfolding write_turn
  write_turn-HasBegun k fails false s e v = v
  write_turn-HasBegun k fails true s e v = λ j i. ground (arith, v j i, v k, e)

  step_at-HasBegun :
      (e : Event) (p : Phase) (s : System State) → HasBegun s → HasBegun (step_at C srv e p s)
  unfolding step_at
  step_at-HasBegun (connect k) idle s v = λ j e. ground (arith, v j)
  step_at-HasBegun (frame k env f) reading s v = settle-HasBegun k _ _ s v
  step_at-HasBegun (hang_up k env) reading s v = settle_end-HasBegun k _ _ s v
  step_at-HasBegun (finish k) waiting s v = λ j e. ground (arith, v j)
  step_at-HasBegun (write k fails) _ s v = write_turn-HasBegun k fails _ s refl v
  step_at-HasBegun (save now i) _ s v = v
  step_at-HasBegun _ _ s v = v

  pub run-HasBegun : (es : List Event) (s : System State) → HasBegun s → HasBegun (run C srv es s)
  unfolding run step
  run-HasBegun [] s v = v
  run-HasBegun (e ∷ es) s v = run-HasBegun es _ (step_at-HasBegun e _ s v)

  pub start-HasBegun : (store : State) → HasBegun (start store)
  unfolding start
  start-HasBegun store k e = refl

  module _ (k : ℕ) where
    settle-HasEnded :
        (j : ℕ) (r : Result Session) (w : World State) (s : System State)
        → HasEnded k s
        → HasEnded k (settle C srv j (r, w) s)
    unfolding settle
    settle-HasEnded j (done sess) w s v = record { begun = v.begun; over = v.over }
    settle-HasEnded j panic w s v = record { begun = λ e. ground (arith, v.begun); over = v.over }

    settle_end-HasEnded :
        (j : ℕ) (r : Result (Unit {0})) (w : World State) (s : System State)
        → HasEnded k s
        → HasEnded k (settle_end C srv j (r, w) s)
    unfolding settle_end
    settle_end-HasEnded j (done _) w s v = record {
      begun = λ e. ground (arith, v.begun);
      over = v.over;
    }
    settle_end-HasEnded j panic w s v = record {
      begun = λ e. ground (arith, v.begun);
      over = v.over;
    }

    write_turn-HasEnded :
        (j : ℕ) (fails runs : Bool) (s : System State)
        → s.writing j ≡ runs
        → HasEnded k s
        → HasEnded k (write_turn j fails runs s)
    unfolding write_turn
    write_turn-HasEnded j fails false s e v = v
    write_turn-HasEnded j fails true s e v = record {
      begun = v.begun;
      over = ground (arith, v.over, e);
    }

    pub step-HasEnded :
        (e : Event) (p : Phase) (s : System State)
        → s.phase (connection C srv e) ≡ p
        → HasEnded k s
        → HasEnded k (step_at C srv e p s)
    unfolding step_at connection
    step-HasEnded (connect j) idle s at v = record {
      begun = λ e. ground (arith, v.begun);
      over = ground (arith, v.over, v.begun, at);
    }
    step-HasEnded (frame j env f) reading s at v = settle-HasEnded j _ _ s v
    step-HasEnded (hang_up j env) reading s at v = settle_end-HasEnded j _ _ s v
    step-HasEnded (finish j) waiting s at v = record {
      begun = λ e. ground (arith, v.begun);
      over = v.over;
    }
    step-HasEnded (write j fails) _ s at v = write_turn-HasEnded j fails _ s refl v
    step-HasEnded (save now i) _ s at v = record { begun = v.begun; over = v.over }
    step-HasEnded _ _ s at v = v
