-- ===== src/Ws/Watch/Returns.antt =====
-- A connection whose peer is silent ends: the handler of each returns.
use go_chat_x.Common.{
  ℕ, suc, ◌+◌, ◌-◌, ◌≤◌, ◌<◌, ◌≡◌, ◌≢◌, refl, sym, ap, subst, ◌∙◌, Option, none, some, List, [],
  ◌∷◌, arith, All, false, if◌then◌else◌, Bool-cases, inl, inr,
}
use go_chat_x.Ws.Watch.{
  read_timeout, grace, Stage, serving, leaving, returned, Watch, accept, ping_due, write_due,
  leave_loop, read_due, wait_due, Happening, tick, pong, received, handled, received_at, handled_at,
  closed, write_begins, write_ends, write_fails, ping_fails, tick_of, closed_at, begin_at, fail_at,
  pong_at, happen, happens,
}

-- How many milliseconds a handler has at most, if no pong comes.
unfoldable pub left_at : Stage → Watch → ℕ
left_at serving w = w.deadline - w.now + grace
left_at (leaving since) w = since + grace - w.now
left_at returned w = 0

-- The deadlines lie ahead.
abbrev pub InTime : Stage → Watch → Type 0
InTime serving w = (w.busy ≡ false → w.now < w.deadline) × (w.deadline ≤ w.now + read_timeout)
InTime (leaving since) w = (since ≤ w.now) × (w.now < since + grace)
InTime returned w = Unit

-- How many milliseconds of an event are not spent on the case of a frame.
unfoldable pub span : Happening → Watch → ℕ
span tick w = if w.busy then 0 else 1
span _ w = 0

unfoldable pub ticks : List Happening → Watch → ℕ
ticks [] w = 0
ticks (e ∷ es) w = span e w + ticks es (happen e w)

-- What the clock, the ticker and the write goroutine do leaves the read loop's deadline alone.
pub record SameLoop (w v : Watch) : Type 0 where
  pub same_now : v.now ≡ w.now
  pub same_busy : v.busy ≡ w.busy
  pub same_deadline : v.deadline ≡ w.deadline
  pub same_stage : v.stage ≡ w.stage

ping_due-SameLoop : (w : Watch) → SameLoop w (ping_due w)
unfolding ping_due
ping_due-SameLoop w = ground arith

write_due-SameLoop : (w : Watch) → SameLoop w (write_due w)
unfolding write_due
write_due-SameLoop w = ground arith

-- One millisecond, for the read loop and the wait after it.
read_wait :
    (w : Watch) (st : Stage)
    → w.stage ≡ st
    → (n : ℕ) → w.now ≡ suc n
    → InTime st (record w { now = n })
    → let b = read_due st w in
      let v = wait_due b.stage b in
      InTime v.stage v
      × (left_at v.stage v ≤ left_at st (record w { now = n }) - (if w.busy then 0 else 1))
unfolding read_due wait_due leave_loop left_at
read_wait w serving is n at h = ground arith
read_wait w (leaving since) is n at h = ground arith
read_wait w returned is n at h = ground arith

-- An event leaves the time in which the handler ends, at worst, as it is, or shortens it by `n`.
abbrev Nears : ℕ → Watch → Watch → Type 0
Nears n w v = InTime v.stage v × (left_at v.stage v ≤ left_at w.stage w - n)

same_InTime :
    (st : Stage) (w v : Watch)
    → v.now ≡ w.now
    → v.deadline ≡ w.deadline
    → v.busy ≡ w.busy
    → InTime st w
    → InTime st v × (left_at st v ≡ left_at st w)
unfolding left_at
same_InTime serving w v n d b h = ground arith
same_InTime (leaving since) w v n d b h = ground arith
same_InTime returned w v n d b h = ground arith

tick_of-Nears : (w : Watch) → InTime w.stage w → Nears (span tick w) w (tick_of w)
unfolding tick_of span
tick_of-Nears w h =
    let x : Watch = record w { now = suc w.now } in
    let p = ping_due-SameLoop x in
    let q = write_due-SameLoop (ping_due x) in
    let a : Watch = write_due (ping_due x) in
    let e = q.same_stage ∙ p.same_stage in
    let kept =
      same_InTime a.stage w (record a { now = w.now }) refl (q.same_deadline ∙ p.same_deadline)
        (q.same_busy ∙ p.same_busy) (subst (λ st. InTime st w) (sym e) h) in
    let (in_time, nearer) = read_wait a a.stage refl w.now (q.same_now ∙ p.same_now) kept.0 in
    (in_time, ground (arith, nearer, kept.1, ap (λ st. left_at st w) e, q.same_busy ∙ p.same_busy))

same-Nears : (w v : Watch) → SameLoop w v → InTime w.stage w → Nears 0 w v
same-Nears w v s h =
    let (in_time, same) =
      same_InTime v.stage w v s.same_now s.same_deadline s.same_busy
        (subst (λ st. InTime st w) (sym s.same_stage) h) in
    (in_time, omega (arith, same, ap (λ st. left_at st w) s.same_stage))

begin_at-SameLoop : (o : Option ℕ) (w : Watch) → SameLoop w (begin_at o w)
unfolding begin_at
begin_at-SameLoop none w = ground arith
begin_at-SameLoop (some t) w = ground arith

fail_at-SameLoop : (o : Option ℕ) (w : Watch) → SameLoop w (fail_at o w)
unfolding fail_at
fail_at-SameLoop none w = ground arith
fail_at-SameLoop (some t) w = ground arith

closed_at-Nears : (w : Watch) (st : Stage) → w.stage ≡ st → InTime st w → Nears 0 w (closed_at st w)
unfolding closed_at leave_loop left_at
closed_at-Nears w serving is h = elim (Bool-cases w.busy) [
  | inl handling ↦ ground (arith, h.0)
  | inr reading ↦ ground (arith, h.0 reading)
]
closed_at-Nears w (leaving since) is h = ground arith
closed_at-Nears w returned is h = ground arith

pong_at-InTime :
    (w : Watch) (st : Stage)
    → w.stage ≡ st
    → InTime st w
    → InTime (pong_at st w).stage (pong_at st w)
unfolding pong_at
pong_at-InTime w serving is h = ground arith
pong_at-InTime w (leaving since) is h = ground arith
pong_at-InTime w returned is h = ground arith

received_at-Nears :
    (w : Watch) (st : Stage) → w.stage ≡ st → InTime st w → Nears 0 w (received_at st w)
unfolding received_at left_at
received_at-Nears w serving is h = ground arith
received_at-Nears w (leaving since) is h = ground arith
received_at-Nears w returned is h = ground arith

handled_at-Nears :
    (w : Watch) (st : Stage)
    → w.stage ≡ st
    → InTime st w
    → Nears 0 w (read_due st (record w { busy = false }))
unfolding read_due leave_loop left_at
handled_at-Nears w serving is h = ground arith
handled_at-Nears w (leaving since) is h = ground arith
handled_at-Nears w returned is h = ground arith

happen-Nears :
    (e : Happening) (w : Watch) → e ≢ pong → InTime w.stage w → Nears (span e w) w (happen e w)
unfolding happen span handled_at
happen-Nears tick w other h = tick_of-Nears w h
happen-Nears pong w other h = absurd (other refl)
happen-Nears received w other h = received_at-Nears w w.stage refl h
happen-Nears handled w other h = handled_at-Nears w w.stage refl h
happen-Nears closed w other h = closed_at-Nears w w.stage refl h
happen-Nears write_begins w other h = same-Nears w _ (begin_at-SameLoop w.writing w) h
happen-Nears write_ends w other h = same-Nears w _ (ground arith) h
happen-Nears write_fails w other h = same-Nears w _ (fail_at-SameLoop w.writing w) h
happen-Nears ping_fails w other h = same-Nears w _ (ground arith) h

happen-InTime :
    (e : Happening) (w : Watch) → InTime w.stage w → InTime (happen e w).stage (happen e w)
unfolding happen
happen-InTime pong w h = pong_at-InTime w w.stage refl h
happen-InTime tick w h = (happen-Nears tick w (λ e. cc) h).0
happen-InTime received w h = (happen-Nears received w (λ e. cc) h).0
happen-InTime handled w h = (happen-Nears handled w (λ e. cc) h).0
happen-InTime closed w h = (happen-Nears closed w (λ e. cc) h).0
happen-InTime write_begins w h = (happen-Nears write_begins w (λ e. cc) h).0
happen-InTime write_ends w h = (happen-Nears write_ends w (λ e. cc) h).0
happen-InTime write_fails w h = (happen-Nears write_fails w (λ e. cc) h).0
happen-InTime ping_fails w h = (happen-Nears ping_fails w (λ e. cc) h).0

happens-InTime :
    (es : List Happening) (w : Watch)
    → InTime w.stage w
    → InTime (happens es w).stage (happens es w)
unfolding happens
happens-InTime [] w h = h
happens-InTime (e ∷ es) w h = happens-InTime es _ (happen-InTime e w h)

silent-Nears :
    (es : List Happening) (w : Watch)
    → All (λ e. e ≢ pong) es
    → InTime w.stage w
    → Nears (ticks es w) w (happens es w)
unfolding happens ticks
silent-Nears [] w n h = (h, omega arith)
silent-Nears (e ∷ es) w n h =
    let first = happen-Nears e w n.0 h in
    let (in_time, nearer) = silent-Nears es (happen e w) n.1 first.0 in
    (in_time, omega (arith, nearer, first.1))

-- No time is left.
at_end : (st : Stage) (w : Watch) → InTime st w → left_at st w ≡ 0 → st ≡ returned
unfolding left_at
at_end serving w h e = absurd (omega arith)
at_end (leaving since) w h e = absurd (omega arith)
at_end returned w h e = refl

left_le : (st : Stage) (w : Watch) → InTime st w → left_at st w ≤ read_timeout + grace
unfolding left_at
left_le serving w h = omega arith
left_le (leaving since) w h = omega arith
left_le returned w h = omega arith

accept-InTime : (t : ℕ) → InTime (accept t).stage (accept t)
unfolding accept
accept-InTime t = omega arith

-- Whatever a connection has done before: once 72 seconds have passed without a pong, not counting
-- the time in which a frame is handled, its handler has returned, however many frames the peer
-- sends meanwhile, and whether writes end, fail or hang.
pub silent-returned :
    (t : ℕ) (before after : List Happening)
    → All (λ e. e ≢ pong) after
    → read_timeout + grace ≤ ticks after (happens before (accept t))
    → (happens after (happens before (accept t))).stage ≡ returned
silent-returned t before after silent long =
    let w = happens before (accept t) in
    let h = happens-InTime before (accept t) (accept-InTime t) in
    let (in_time, near) = silent-Nears after w silent h in
    at_end _ _ in_time (omega (arith, near, left_le w.stage w h))
