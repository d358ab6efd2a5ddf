-- ===== src/System/Holds.antt =====
-- A property of the maps and channels that each function on them keeps holds in whatever order the
-- connections act.
use go_chat_x.Common.{Bool, true, false, ℕ, ◌≡◌, refl, Option, none, some, List, [], ◌∷◌}
use go_chat_x.Go.{Result, done, panic}
use go_chat_x.Go.Keeps.{Keeps}
use go_chat_x.Message.{ChatMessage}
use go_chat_x.Hub.{Hub}
use go_chat_x.Hub.Rules.{QuietRules, HubRules}
use go_chat_x.Storage.Documents.{Collection}
use go_chat_x.World.{Server, World, Session}
use go_chat_x.Ws.Loop.{save_picked, run_save, write_next}
use go_chat_x.Ws.Holds.{OnHub, on_hub-OnHub, on_frame-OnHub, cleanup-OnHub, deferred-OnHub}
use go_chat_x.System.{
  Phase, idle, reading, waiting, Event, connect, frame, hang_up, finish, write, save, System,
  settle, settle_end, step_at, step, run, write_turn,
}

module _ (C : Collection) (srv : Server) where
  open C use {State}

  pub save_picked-hub :
      (now : ℕ) (o : Option (ChatMessage × List ChatMessage)) (w : World State)
      → (save_picked C srv now o w).hub ≡ w.hub
  unfolding save_picked
  save_picked-hub now none w = refl
  save_picked-hub now (some (m, rest)) w = refl

  module _ {P : Hub → Type 0} (quiet : QuietRules P) where
    pub settle-OnHub :
        (k : ℕ) (r : Result Session) (w : World State) (s : System State)
        → OnHub P w
        → OnHub P (settle C srv k (r, w) s).world
    unfolding settle
    settle-OnHub k (done sess) w s v = v
    settle-OnHub k panic w s v = (deferred-OnHub quiet C srv k).at w v

    pub settle_end-OnHub :
        (k : ℕ) (r : Result (Unit {0})) (w : World State) (s : System State)
        → OnHub P w
        → OnHub P (settle_end C srv k (r, w) s).world
    unfolding settle_end
    settle_end-OnHub k (done _) w s v = v
    settle_end-OnHub k panic w s v = (deferred-OnHub quiet C srv k).at w v

  pub write_turn-OnHub :
      {P : Hub → Type 0} (k : ℕ) (fails runs : Bool) (s : System State)
      → Keeps P (write_next k)
      → OnHub P s.world
      → OnHub P (write_turn k fails runs s).world
  unfolding write_turn
  write_turn-OnHub k fails false s writes v = v
  write_turn-OnHub k fails true s writes v = (on_hub-OnHub _ writes).at s.world v

  module _ {P : Hub → Type 0} (rules : HubRules P) where
    -- One event; what the write goroutine does is told by the premise.
    pub step_at-OnHub :
        (e : Event) (p : Phase) (s : System State)
        → ((k : ℕ) (fails : Bool) → e ≡ write k fails → Keeps P (write_next k))
        → OnHub P s.world
        → OnHub P (step_at C srv e p s).world
    unfolding step_at run_save
    step_at-OnHub (connect k) idle s writes v = v
    step_at-OnHub (frame k env f) reading s writes v =
        settle-OnHub rules.quietly k _ _ s
          ((on_frame-OnHub rules C srv env k f (s.session k)).at s.world v)
    step_at-OnHub (hang_up k env) reading s writes v =
        settle_end-OnHub rules.quietly k _ _ s
          ((cleanup-OnHub rules C srv env k (s.session k)).at s.world v)
    step_at-OnHub (finish k) waiting s writes v =
        (deferred-OnHub rules.quietly C srv k).at s.world v
    step_at-OnHub (write k fails) _ s writes v =
        write_turn-OnHub k fails (s.writing k) s (writes k fails refl) v
    step_at-OnHub (save now i) _ s writes v = record {
      hub_holds = rw (save_picked-hub now _ s.world) v.hub_holds;
    }
    step_at-OnHub _ _ s writes v = v

    pub run-OnHub :
        (writes : (k : ℕ) → Keeps P (write_next k)) (es : List Event) (s : System State)
        → OnHub P s.world
        → OnHub P (run C srv es s).world
    unfolding run step
    run-OnHub writes [] s v = v
    run-OnHub writes (e ∷ es) s v =
        run-OnHub writes es _ (step_at-OnHub e _ s (λ k _ _. writes k) v)
