-- ===== src/System/Fifo.antt =====
-- The write goroutine of a connection writes what its channel was given, in that order.
use mathlib.Core.List.{tail, append-nil, append_assoc}
use go_chat_x.Common.{
  ℕ, suc, ◌≤◌, ◌≡◌, refl, sym, ap, ◌∙◌, Bool, true, false, List, [], ◌∷◌, ◌++◌, arith, eqb, inl,
  inr, Bool-cases, length, ◌&&◌, not, if◌then◌else◌,
}
use go_chat_x.Go.{modify}
use go_chat_x.Go.Keeps.{Keeps}
use go_chat_x.Protocol.{WsPayload}
use go_chat_x.Hub.{chan_size}
use go_chat_x.Storage.Documents.{Collection}
use go_chat_x.World.{Server, on_hub}
use go_chat_x.Ws.Loop.{take_oldest, write_next}
use go_chat_x.System.{
  Event, connect, frame, hang_up, finish, write, save, System, start, step_at, step, run,
  write_turn, connection, goes_on,
}
use go_chat_x.System.Holds.{step_at-OnHub}
use go_chat_x.System.Writing.{HasEnded, HasBegun, step-HasEnded, run-HasBegun, start-HasBegun}
use go_chat_x.System.Sound.{run-IsSound}
use go_chat_x.Hub.Leads.{Leads-HubRules, write_other-Leads, Leads}

-- Whether an event is a turn of the write goroutine of `k`, and the network refuses no write in it.
unfoldable pub writes_to : ℕ → Event → Bool
writes_to k (write j fails) = eqb j k && not fails
writes_to k _ = false

-- The oldest payload, if there is one.
unfoldable pub oldest : List WsPayload → List WsPayload
oldest [] = []
oldest (p ∷ ps) = p ∷ []

oldest-tail : (b : List WsPayload) → oldest b ++ tail b ≡ b
unfolding oldest
oldest-tail [] = refl
oldest-tail (p ∷ ps) = refl

oldest-cons : (p : WsPayload) (ps : List WsPayload) → oldest (p ∷ ps) ≡ p ∷ []
unfolding oldest
oldest-cons p ps = refl

module _ (C : Collection) (srv : Server) where
  open C use {State}

  -- The channel of `k`.
  abbrev pub queue : ℕ → System State → List WsPayload
  queue k s = (s.world.hub.chan k).buf

  -- In the event the write goroutine of `k` runs, and writes what it finds: the server has not
  -- closed the connection, and the network does not refuse the write.
  unfoldable pub serves : ℕ → Event → System State → Bool
  serves k e s = writes_to k e && (s.writing k && not (s.world.hub.shut k))

  -- The event takes what waits first: a payload whose write fails is taken, and lost.
  takes : ℕ → Event → System State → Bool
  takes k (write j fails) s = eqb j k && s.writing j
  takes k _ s = false

  -- How often it does so during the events.
  unfoldable pub turns : ℕ → List Event → System State → ℕ
  turns k [] s = 0
  turns k (e ∷ es) s =
      let rest = turns k es (step C srv e s) in if serves k e s then suc rest else rest

  -- What is written to the connection `k` during the events.
  unfoldable pub written : ℕ → List Event → System State → List WsPayload
  written k [] s = []
  written k (e ∷ es) s =
      (if serves k e s then oldest (queue k s) else []) ++ written k es (step C srv e s)

  -- An event in which no write goroutine takes from the channel only appends to it.
  appended :
      (k : ℕ) (e : Event) (s : System State)
      → ((j : ℕ) (fails : Bool) → e ≡ write j fails → Keeps (Leads k (queue k s)) (write_next j))
      → (more : List WsPayload) × (queue k (step C srv e s) ≡ queue k s ++ more)
  unfolding step
  appended k e s other =
      let kept =
        step_at-OnHub C srv (Leads-HubRules k (queue k s)) e _ s other
          (record { hub_holds = record { later = []; split = sym (append-nil (queue k s)) } }) in
      (kept.hub_holds.later, kept.hub_holds.split)

  step-write :
      (k j : ℕ) (fails : Bool) (s : System State)
      → eqb j k ≡ true
      → s.writing j ≡ true
      → queue k (step C srv (write j fails) s) ≡ tail (queue k s)
  unfolding step step_at write_turn connection on_hub write_next take_oldest modify
  step-write k j fails s same runs = rw runs (ground arith)

  -- Any other event only appends to the channel.
  step-other :
      (k : ℕ) (e : Event) (s : System State)
      → takes k e s ≡ false
      → (more : List WsPayload) × (queue k (step C srv e s) ≡ queue k s ++ more)
  unfolding takes
  step-other k (write j fails) s other = elim (Bool-cases (s.writing j)) [
    | inl runs ↦
        appended k (write j fails) s
          (λ i f is. write_other-Leads k (queue k s) i (ground (arith, is, runs, other)))
    | inr stopped ↦
        ([], unfold step step_at write_turn connection in rw stopped (sym (append-nil (queue k s))))
  ]
  step-other k e s other = appended k e s (λ i f is. cc)

  -- What takes a payload and does not write it is the last that the write goroutine does.
  lost-HasEnded :
      (k : ℕ) (e : Event) (s : System State) (p : WsPayload) (b : List WsPayload)
      → HasBegun s
      → queue k s ≡ p ∷ b
      → takes k e s ≡ true
      → serves k e s ≡ false
      → HasEnded k (step C srv e s)
  unfolding takes serves writes_to step step_at write_turn connection goes_on
  lost-HasEnded k (write j fails) s p b v at takes_it refused = record {
    begun = λ i. ground (arith, v k, i, takes_it);
    over = ground (arith, takes_it, refused, at);
  }
  lost-HasEnded k (connect j) s p b v at takes_it refused = cc
  lost-HasEnded k (frame j env f) s p b v at takes_it refused = cc
  lost-HasEnded k (hang_up j env) s p b v at takes_it refused = cc
  lost-HasEnded k (finish j) s p b v at takes_it refused = cc
  lost-HasEnded k (save now i) s p b v at takes_it refused = cc

  -- What serves takes the oldest payload.
  step-serves :
      (k : ℕ) (e : Event) (s : System State)
      → serves k e s ≡ true
      → queue k (step C srv e s) ≡ tail (queue k s)
  unfolding serves writes_to
  step-serves k (write j fails) s turn = step-write k j fails s (ground arith) (ground arith)
  step-serves k (connect j) s turn = cc
  step-serves k (frame j env f) s turn = cc
  step-serves k (hang_up j env) s turn = cc
  step-serves k (finish j) s turn = cc
  step-serves k (save now i) s turn = cc

  step-HasBegun : (e : Event) (s : System State) → HasBegun s → HasBegun (step C srv e s)
  unfolding run
  step-HasBegun e s v = run-HasBegun C srv (e ∷ []) s v

  over-turns : (k : ℕ) (es : List Event) (s : System State) → HasEnded k s → turns k es s ≡ 0
  unfolding turns serves step
  over-turns k [] s v = refl
  over-turns k (e ∷ es) s v =
      ground (arith, over-turns k es _ (step-HasEnded C srv k e _ s refl v), v.over)

  -- As many turns as payloads wait write them all; `late` is what may come meanwhile.
  drains :
      (k : ℕ) (es : List Event) (s : System State) (b late : List WsPayload)
      → HasBegun s
      → queue k s ≡ b ++ late
      → length b ≤ turns k es s
      → (more : List WsPayload) × (written k es s ≡ b ++ more)
  unfolding written turns
  drains k es s [] late v e few = (written k es s, refl)
  drains k [] s (p ∷ b) late v at few = absurd (omega arith)
  drains k (e ∷ es) s (p ∷ b) late v at few = elim (Bool-cases (serves k e s)) [
    | inl turn ↦
        let head : oldest (queue k s) ≡ p ∷ [] = ap oldest at ∙ oldest-cons p (b ++ late) in
        let (more, rest) =
          drains k es (step C srv e s) b late (step-HasBegun e s v)
            (step-serves k e s turn ∙ ap tail at) (ground (arith, few, turn)) in
        (more, rw (turn, head) (ap (λ x. p ∷ x) rest))
    | inr refused ↦ elim (Bool-cases (takes k e s)) [
      | inl lost ↦
          let no_turn = over-turns k es _ (lost-HasEnded k e s p (b ++ late) v at lost refused) in
          absurd (ground (arith, few, refused, no_turn))
      | inr other ↦
          let (m, appended) = step-other k e s other in
          let (more, rest) =
            drains k es (step C srv e s) (p ∷ b) (late ++ m) (step-HasBegun e s v)
              (appended ∙ ap (λ x. x ++ m) at ∙ append_assoc (p ∷ b) late m)
              (ground (arith, few, refused)) in
          (more, rw refused rest)
    ]
  ]

  -- Every payload that waits in the channel of a connection is written, before any that comes
  -- later, if the write goroutine runs 256 times and no write before fails.
  pub run-written :
      (store : State) (before after : List Event) (k : ℕ)
      → chan_size ≤ turns k after (run C srv before (start store))
      → let s = run C srv before (start store) in
        (more : List WsPayload) × (written k after s ≡ queue k s ++ more)
  run-written store before after k enough =
      let s = run C srv before (start store) in
      let sound = run-IsSound C srv store before in
      drains k after s (queue k s) []
        (run-HasBegun C srv before (start store) (start-HasBegun C srv store))
        (sym (append-nil (queue k s))) (omega (arith, sound.fits k))
