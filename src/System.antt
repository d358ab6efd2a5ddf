-- ===== src/System.antt =====
-- The gateway as a whole: connections that open, send frames, hang up and end, between which the
-- write goroutines and the saving goroutines run. An event runs whole; Hub/Race.antt is about what
-- can come between the locked parts of one.
pub mod Holds
pub mod Writing
pub mod Sound
pub mod Live
pub mod Leave
pub mod Quiet
pub mod Safe
pub mod Whole
pub mod Arrives
pub mod Refines
pub mod Fifo
pub mod Once
use go_chat_x.Common.{
  ℕ, Bool, String, Option, none, some, List, [], ◌∷◌, if◌then◌else◌, eqb, update, true, false, ◌||◌,
  not,
}
use go_chat_x.Go.{Result, done, panic}
use go_chat_x.Protocol.{Frame, WsPayload}
use go_chat_x.Hub.{Hub, init}
use go_chat_x.Storage.Documents.{Collection}
use go_chat_x.World.{Server, World, Session, Env, no_session, on_hub}
use go_chat_x.Ws.Loop.{on_frame, cleanup, deferred, write_next, run_save}

-- How far the goroutine of a connection has come: not accepted yet, in the read loop, waiting for
-- the write goroutine after its cleanup, ended, or ended by a panic.
pub data Phase : Type 0 where
  idle reading waiting ended crashed : Phase

pub data Event : Type 0 where
  connect : (k : ℕ) → Event
  frame : (k : ℕ) → Env → Frame → Event
  hang_up : (k : ℕ) → Env → Event
  finish : (k : ℕ) → Event
  write : (k : ℕ) → (fails : Bool) → Event
  save : (now i : ℕ) → Event

pub record System (S : Type 0) : Type 0 where
  pub world : World S
  pub session : ℕ → Session
  pub phase : ℕ → Phase
  -- the write goroutine runs
  pub writing : ℕ → Bool

unfoldable pub start : {S : Type 0} → S → System S
start store = record {
  world = record { hub = init; store = store; redis = []; pending = [] };
  session = λ _. no_session;
  phase = λ _. idle;
  writing = λ _. false;
}

-- Whether the write goroutine goes on after a turn: on an empty channel it waits, unless the channel
-- is closed, and a write that fails ends it. Every write fails once the server has closed the
-- connection.
unfoldable pub goes_on : (fails shut closed : Bool) → List WsPayload → Bool
goes_on fails shut closed [] = not closed
goes_on fails shut closed (_ ∷ _) = not (fails || shut)

-- A turn of the write goroutine, if it runs; `fails` is what the network does to the write.
unfoldable pub write_turn : {S : Type 0} → ℕ → (fails runs : Bool) → System S → System S
write_turn k fails false s = s
write_turn k fails true s = record s {
  world = (on_hub (write_next k) s.world).1;
  writing =
      update s.writing k
        (goes_on fails (s.world.hub.shut k) (s.world.hub.chan k).closed (s.world.hub.chan k).buf);
}

module _ (C : Collection) (srv : Server) where
  open C use {State}

  -- What a frame's case leaves: its local variables, or the deferred calls of a panic.
  unfoldable pub settle : ℕ → Result Session × World State → System State → System State
  settle k (done sess, w) s = record s { world = w; session = update s.session k sess }
  settle k (panic, w) s = record s {
    world = (deferred C srv k w).1;
    phase = update s.phase k crashed;
  }

  unfoldable pub settle_end : ℕ → Result (Unit {0}) × World State → System State → System State
  settle_end k (done _, w) s = record s { world = w; phase = update s.phase k waiting }
  settle_end k (panic, w) s = record s {
    world = (deferred C srv k w).1;
    phase = update s.phase k crashed;
  }

  unfoldable pub step_at : Event → Phase → System State → System State
  step_at (connect k) idle s = record s {
    phase = update s.phase k reading;
    session = update s.session k no_session;
    writing = update s.writing k true;
  }
  step_at (frame k env f) reading s = settle k (on_frame C srv env k f (s.session k) s.world) s
  step_at (hang_up k env) reading s = settle_end k (cleanup C srv env k (s.session k) s.world) s
  step_at (finish k) waiting s = record s {
    world = (deferred C srv k s.world).1;
    phase = update s.phase k ended;
  }
  step_at (write k fails) _ s = write_turn k fails (s.writing k) s
  step_at (save now i) _ s = record s { world = run_save C srv now i s.world }
  step_at _ _ s = s

  unfoldable pub connection : Event → ℕ
  connection (connect k) = k
  connection (frame k _ _) = k
  connection (hang_up k _) = k
  connection (finish k) = k
  connection (write k _) = k
  connection (save _ _) = 0

  unfoldable pub step : Event → System State → System State
  step e s = step_at e (s.phase (connection e)) s

  unfoldable pub run : List Event → System State → System State
  run [] s = s
  run (e ∷ es) s = run es (step e s)
