-- ===== src/Ws/Watch/Writes.antt =====
-- No write hangs for longer than its deadline, nor for longer than the handler.
use go_chat_x.Common.{
  ℕ, ◌+◌, ◌≤◌, ◌<◌, ◌≡◌, refl, ◌⊎◌, true, false, Option, none, some, List, [], ◌∷◌, arith,
}
use go_chat_x.Ws.Watch.{
  write_timeout, grace, Stage, serving, leaving, returned, Watch, accept, has_expired, ping_due,
  write_due, leave_loop, read_due, wait_due, Happening, tick, pong, received, handled, received_at,
  handled_at, closed, write_begins, write_ends, write_fails, ping_fails, tick_of, closed_at,
  begin_at, fail_at, pong_at, happen, happens,
}

-- The write in progress is within its deadline.
abbrev IsTimely : Watch → Type 0
IsTimely w = (s : ℕ) → w.writing ≡ some s → (s ≤ w.now) × (w.now < s + write_timeout)

record IsOrderly (w : Watch) : Type 0 where
  timely : IsTimely w
  idle : w.writer_done ≡ true → w.writing ≡ none

tick_of-IsTimely : (w : Watch) → IsTimely w → IsTimely (tick_of w)
unfolding tick_of ping_due write_due read_due wait_due leave_loop has_expired
tick_of-IsTimely w h s e = ground (arith, h s)

tick_of-idle :
    (w : Watch) → IsOrderly w → (tick_of w).writer_done ≡ true → (tick_of w).writing ≡ none
unfolding tick_of ping_due write_due read_due wait_due leave_loop has_expired
tick_of-idle w v e = ground (arith, v.idle)

stage-IsOrderly : (w : Watch) (st : Stage) → IsOrderly w → IsOrderly (closed_at st w)
unfolding closed_at leave_loop
stage-IsOrderly w serving v = record {
  timely = λ s e. ground (arith, v.timely s);
  idle = λ e. ground (arith, v.idle);
}
stage-IsOrderly w (leaving since) v = v
stage-IsOrderly w returned v = v

pong_at-IsOrderly : (w : Watch) (st : Stage) → IsOrderly w → IsOrderly (pong_at st w)
unfolding pong_at
pong_at-IsOrderly w serving v = record {
  timely = λ s e. ground (arith, v.timely s);
  idle = λ e. ground (arith, v.idle);
}
pong_at-IsOrderly w (leaving since) v = v
pong_at-IsOrderly w returned v = v

received_at-IsOrderly : (w : Watch) (st : Stage) → IsOrderly w → IsOrderly (received_at st w)
unfolding received_at
received_at-IsOrderly w serving v = record { timely = v.timely; idle = v.idle }
received_at-IsOrderly w (leaving since) v = v
received_at-IsOrderly w returned v = v

handled_at-IsOrderly :
    (w : Watch) (st : Stage) → IsOrderly w → IsOrderly (read_due st (record w { busy = false }))
unfolding read_due leave_loop
handled_at-IsOrderly w serving v = record {
  timely = λ s e. ground (arith, v.timely s);
  idle = λ e. ground (arith, v.idle);
}
handled_at-IsOrderly w (leaving since) v = record { timely = v.timely; idle = v.idle }
handled_at-IsOrderly w returned v = record { timely = v.timely; idle = v.idle }

begin_at-IsOrderly : (w : Watch) (o : Option ℕ) → IsOrderly w → IsOrderly (begin_at o w)
unfolding begin_at
begin_at-IsOrderly w none v = record {
  timely = λ s e. ground (arith, v.timely s);
  idle = λ e. ground (arith, v.idle);
}
begin_at-IsOrderly w (some t) v = v

fail_at-IsOrderly : (w : Watch) (o : Option ℕ) → IsOrderly w → IsOrderly (fail_at o w)
unfolding fail_at
fail_at-IsOrderly w none v = v
fail_at-IsOrderly w (some t) v = record {
  timely = λ s e. absurd (none-ne-some e);
  idle = λ e. refl;
}
  where
    none-ne-some : {s : ℕ} → none ≡ some s → ⊥
    none-ne-some e = cc

happen-IsOrderly : (e : Happening) (w : Watch) → IsOrderly w → IsOrderly (happen e w)
unfolding happen handled_at
happen-IsOrderly tick w v = record { timely = tick_of-IsTimely w v.timely; idle = tick_of-idle w v }
happen-IsOrderly pong w v = pong_at-IsOrderly w w.stage v
happen-IsOrderly received w v = received_at-IsOrderly w w.stage v
happen-IsOrderly handled w v = handled_at-IsOrderly w w.stage v
happen-IsOrderly closed w v = stage-IsOrderly w w.stage v
happen-IsOrderly write_begins w v = begin_at-IsOrderly w w.writing v
happen-IsOrderly write_ends w v = record { timely = λ s e. ground (arith, e); idle = λ e. refl }
happen-IsOrderly write_fails w v = fail_at-IsOrderly w w.writing v
happen-IsOrderly ping_fails w v = record { timely = v.timely; idle = v.idle }

happens-IsOrderly : (es : List Happening) (w : Watch) → IsOrderly w → IsOrderly (happens es w)
unfolding happens
happens-IsOrderly [] w v = v
happens-IsOrderly (e ∷ es) w v = happens-IsOrderly es _ (happen-IsOrderly e w v)

accept-IsOrderly : (t : ℕ) → IsOrderly (accept t)
unfolding accept
accept-IsOrderly t = record { timely = λ s e. absurd (ground (arith, e)); idle = λ e. refl }

-- What the return of the handler promises, when it has waited since an instant.
pub record EndsWell (since : ℕ) (w : Watch) : Type 0 where
  pub long_enough : (w.writer_done ≡ true) ⊎ (since + grace ≤ w.now)
  pub no_old_write : (s : ℕ) → w.writing ≡ some s → since < s

-- The wait ends when the write goroutine has ended, or after 12 seconds.
tick_of-waited :
    (w : Watch) (since : ℕ)
    → w.stage ≡ leaving since
    → (tick_of w).stage ≡ returned
    → ((tick_of w).writer_done ≡ true) ⊎ (since + grace ≤ (tick_of w).now)
unfolding tick_of ping_due write_due read_due wait_due leave_loop has_expired
tick_of-waited w since waits ends = ground arith

-- In whatever way a connection got to where its handler waits: if the handler returns with the next
-- millisecond, then the write goroutine has ended, by a write that failed, or 12 seconds have
-- passed; and a write that is still in progress has begun after the wait did.
pub returned-EndsWell :
    (t : ℕ) (es : List Happening) (since : ℕ)
    → let w = happens es (accept t) in
      w.stage ≡ leaving since → (happen tick w).stage ≡ returned → EndsWell since (happen tick w)
unfolding happen
returned-EndsWell t es since waits ends =
    let w = happens es (accept t) in
    let v = happen-IsOrderly tick w (happens-IsOrderly es (accept t) (accept-IsOrderly t)) in
    record {
      long_enough = tick_of-waited w since waits ends;
      no_old_write = λ s e. ground (arith, v.timely s e, v.idle, tick_of-waited w since waits ends);
    }
