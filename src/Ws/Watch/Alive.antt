-- ===== src/Ws/Watch/Alive.antt =====
-- A peer that answers each ping in time is not timed out.
use go_chat_x.Common.{
  ℕ, ◌+◌, ◌≤◌, ◌<◌, ◌≡◌, ◌≢◌, refl, sym, subst, Bool, true, Option, none, some, List, [], ◌∷◌,
  arith, All, inl, inr, Bool-cases, false,
}
use go_chat_x.Ws.Watch.{
  read_timeout, ping_period, Stage, serving, leaving, returned, Watch, accept, oldest_ask, ping_due,
  write_due, read_due, wait_due, Happening, tick, pong, received, handled, received_at, handled_at,
  leave_loop, closed, write_begins, write_ends, write_fails, ping_fails, tick_of, begin_at, fail_at,
  pong_at, happen, happens,
}

-- The oldest ping without an answer is less than 30 seconds old.
abbrev pub IsPrompt : Option ℕ → ℕ → Type 0
IsPrompt none now = Unit
IsPrompt (some t) now = now < t + ping_period

-- The peer does so after every event.
abbrev pub StaysPrompt : List Happening → Watch → Type 0
StaysPrompt [] w = Unit
StaysPrompt (e ∷ es) w = IsPrompt (happen e w).asked (happen e w).now × StaysPrompt es (happen e w)

-- The deadline leaves room for the next ping, or for the answer to the last one.
abbrev HasRoom : Option ℕ → Watch → Type 0
HasRoom none w = w.next_ping + ping_period ≤ w.deadline
HasRoom (some t) w = (t + ping_period ≤ w.deadline) × (w.next_ping ≡ t + ping_period)

record IsAlive (w : Watch) : Type 0 where
  in_loop : w.stage ≡ serving
  asking : w.pinging ≡ true
  before_ping : w.now < w.next_ping
  soon : w.next_ping ≤ w.now + ping_period
  room : HasRoom w.asked w

tick_of-IsAlive :
    (w : Watch) (o : Option ℕ)
    → w.asked ≡ o
    → IsAlive w
    → IsPrompt (tick_of w).asked (tick_of w).now
    → IsAlive (tick_of w)
unfolding tick_of ping_due write_due read_due wait_due oldest_ask
tick_of-IsAlive w none is v p = ground arith
tick_of-IsAlive w (some t) is v p = ground arith

same_room : (o : Option ℕ) (w : Watch) → HasRoom o w → HasRoom o (record w { writing = none })
same_room none w h = h
same_room (some t) w h = h

same_busy : (b : Bool) (o : Option ℕ) (w : Watch) → HasRoom o w → HasRoom o (record w { busy = b })
same_busy b none w h = h
same_busy b (some t) w h = h

begin_at-IsAlive : (o : Option ℕ) (w : Watch) → IsAlive w → IsAlive (begin_at o w)
unfolding begin_at
begin_at-IsAlive none w v = ground arith
begin_at-IsAlive (some t) w v = v

fail_at-IsAlive : (o : Option ℕ) (w : Watch) → IsAlive w → IsAlive (fail_at o w)
unfolding fail_at
fail_at-IsAlive none w v = v
fail_at-IsAlive (some t) w v = ground arith

pong_at_busy : (w : Watch) → w.busy ≡ true → pong_at serving w ≡ w
unfolding pong_at
pong_at_busy w e = ground arith

pong_at_reading :
    (w : Watch)
    → w.busy ≡ false
    → pong_at serving w ≡ record w { deadline = w.now + read_timeout; asked = none }
unfolding pong_at
pong_at_reading w e = ground arith

pong_at-IsAlive : (w : Watch) (st : Stage) → w.stage ≡ st → IsAlive w → IsAlive (pong_at st w)
unfolding pong_at
pong_at-IsAlive w serving is v = elim (Bool-cases w.busy) [
  | inl handling ↦ subst IsAlive (sym (pong_at_busy w handling)) v
  | inr reading ↦ subst IsAlive (sym (pong_at_reading w reading)) (record {
    in_loop = v.in_loop;
    asking = v.asking;
    before_ping = v.before_ping;
    soon = v.soon;
    room = omega (arith, v.soon);
  })
]
pong_at-IsAlive w (leaving since) is v = v
pong_at-IsAlive w returned is v = v

received_at-IsAlive : (w : Watch) (st : Stage) → IsAlive w → IsAlive (received_at st w)
unfolding received_at
received_at-IsAlive w serving v = record {
  in_loop = v.in_loop;
  asking = v.asking;
  before_ping = v.before_ping;
  soon = v.soon;
  room = same_busy true w.asked w v.room;
}
received_at-IsAlive w (leaving since) v = v
received_at-IsAlive w returned v = v

handled_at-IsAlive :
    (w : Watch) (o : Option ℕ)
    → w.asked ≡ o
    → IsAlive w
    → IsPrompt (handled_at w).asked (handled_at w).now
    → IsAlive (handled_at w)
unfolding handled_at read_due leave_loop
handled_at-IsAlive w none is v p = ground arith
handled_at-IsAlive w (some t) is v p = ground arith

-- The connection stays: the peer does not close, and no ping fails to be written.
abbrev pub IsKind : Happening → Type 0
IsKind e = (e ≢ closed) × (e ≢ ping_fails)

happen-IsAlive :
    (e : Happening) (w : Watch)
    → IsKind e
    → IsPrompt (happen e w).asked (happen e w).now
    → IsAlive w
    → IsAlive (happen e w)
unfolding happen
happen-IsAlive tick w fine p v = tick_of-IsAlive w w.asked refl v p
happen-IsAlive pong w fine p v = pong_at-IsAlive w w.stage refl v
happen-IsAlive received w fine p v = received_at-IsAlive w w.stage v
happen-IsAlive handled w fine p v = handled_at-IsAlive w w.asked refl v p
happen-IsAlive closed w fine p v = absurd (fine.0 refl)
happen-IsAlive write_begins w fine p v = begin_at-IsAlive w.writing w v
happen-IsAlive write_ends w fine p v = record {
  in_loop = v.in_loop;
  asking = v.asking;
  before_ping = v.before_ping;
  soon = v.soon;
  room = same_room w.asked w v.room;
}
happen-IsAlive write_fails w fine p v = fail_at-IsAlive w.writing w v
happen-IsAlive ping_fails w fine p v = absurd (fine.1 refl)

happens-IsAlive :
    (es : List Happening) (w : Watch)
    → All IsKind es
    → StaysPrompt es w
    → IsAlive w
    → IsAlive (happens es w)
unfolding happens
happens-IsAlive [] w fine p v = v
happens-IsAlive (e ∷ es) w fine p v =
    happens-IsAlive es _ fine.1 p.1 (happen-IsAlive e w fine.0 p.0 v)

accept-IsAlive : (t : ℕ) → IsAlive (accept t)
unfolding accept
accept-IsAlive t = record {
  in_loop = refl;
  asking = refl;
  before_ping = omega arith;
  soon = omega arith;
  room = omega arith;
}

-- A peer that answers each ping within 30 seconds stays connected, for as long as it does so and
-- does not close, and the pings can be written: no deadline of its read loop passes, whether it
-- sends anything else or not.
pub prompt-serving :
    (t : ℕ) (es : List Happening)
    → All IsKind es
    → StaysPrompt es (accept t)
    → (happens es (accept t)).stage ≡ serving
prompt-serving t es fine p = (happens-IsAlive es (accept t) fine p (accept-IsAlive t)).in_loop
