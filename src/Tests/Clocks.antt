-- ===== src/Tests/Clocks.antt =====
-- Connections with their deadlines, and the IDs of messages.
use go_chat_x.Common.{ℕ, zero, suc, ◌+◌, ◌≡◌, ◌≢◌, refl, ◌∙◌, false, List, [], ◌∷◌, All, arith}
use go_chat_x.World.{Env}
use go_chat_x.Ws.Chat.{room_message}
use go_chat_x.Ws.Ids.{room_message-id_inj}
use go_chat_x.Ws.Watch.{
  serving, leaving, returned, Watch, accept, Happening, tick, pong, received, handled, received_at,
  handled_at, closed, write_begins, write_fails, happen, happens, tick_of, ping_due, write_due,
  read_due, wait_due, has_expired, oldest_ask, pong_at, closed_at, begin_at, fail_at, leave_loop,
}
use go_chat_x.Ws.Watch.Returns.{span, ticks, silent-returned}
use go_chat_x.Ws.Watch.Alive.{StaysPrompt, IsKind, prompt-serving}
use go_chat_x.Ws.Watch.Writes.{EndsWell, returned-EndsWell}
use go_chat_x.Tests.Scene.{no_service, ann}

-- `n` milliseconds without anything else.
silence : ℕ → List Happening
silence zero = []
silence (suc n) = tick ∷ silence n

tick-busy : (w : Watch) → (happen tick w).busy ≡ w.busy
unfolding happen tick_of ping_due write_due read_due wait_due leave_loop
tick-busy w = ground arith

ticks-silence : (n : ℕ) (w : Watch) → w.busy ≡ false → ticks (silence n) w ≡ n
unfolding ticks span silence
ticks-silence zero w idle = refl
ticks-silence (suc n) w idle =
    ground (arith, ticks-silence n (happen tick w) (tick-busy w ∙ idle), idle)

silence-All : (n : ℕ) → All (λ e. e ≢ pong) (silence n)
unfolding silence
silence-All zero = tt
silence-All (suc n) = (λ e. absurd (ground (arith, e)), silence-All n)

-- The peer sends a frame, but answers no ping.
abbrev chatty : List Happening
chatty = received ∷ handled ∷ silence 72000

chatty-All : All (λ e. e ≢ pong) chatty
chatty-All = (λ e. cc, (λ e. cc, silence-All 72000))

abbrev answered_once : Watch
answered_once = happens (tick ∷ pong ∷ []) (accept 5)

handled-busy :
    ((happen handled (happen received answered_once)).busy ≡ false)
    × (span received answered_once + span handled (happen received answered_once) ≡ 0)
unfolding happens happen tick_of accept ping_due write_due read_due wait_due has_expired pong_at
    received_at handled_at span leave_loop
handled-busy = (refl, refl)

chatty-ticks : (n : ℕ) → ticks (received ∷ handled ∷ silence n) answered_once ≡ n
unfolding ticks
chatty-ticks n = omega (
  arith,
  ticks-silence n (happen handled (happen received answered_once)) handled-busy.0,
  handled-busy.1,
)

silent-returned_example : (happens chatty answered_once).stage ≡ returned
silent-returned_example =
    silent-returned 5 (tick ∷ pong ∷ []) chatty chatty-All (omega (arith, chatty-ticks 72000))

abbrev lively : List Happening
lively = tick ∷ write_begins ∷ pong ∷ received ∷ handled ∷ tick ∷ []

lively-IsKind : All IsKind lively
lively-IsKind = (
  (λ e. cc, λ e. cc),
  (
    (λ e. cc, λ e. cc),
    ((λ e. cc, λ e. cc), ((λ e. cc, λ e. cc), ((λ e. cc, λ e. cc), ((λ e. cc, λ e. cc), tt)))),
  ),
)

lively-StaysPrompt : StaysPrompt lively (accept 5)
unfolding happen tick_of accept ping_due write_due read_due wait_due has_expired oldest_ask pong_at
    begin_at fail_at received_at handled_at
lively-StaysPrompt = (tt, (tt, (tt, (tt, (tt, (tt, tt))))))

prompt-serving_example : (happens lively (accept 5)).stage ≡ serving
prompt-serving_example = prompt-serving 5 lively lively-IsKind lively-StaysPrompt

abbrev cut_off : List Happening
cut_off = tick ∷ write_begins ∷ closed ∷ write_fails ∷ []

waits : (happens cut_off (accept 5)).stage ≡ leaving 6
unfolding happens happen tick_of accept ping_due write_due read_due wait_due has_expired closed_at
    leave_loop begin_at fail_at
waits = refl

ends : (happen tick (happens cut_off (accept 5))).stage ≡ returned
unfolding happens happen tick_of accept ping_due write_due read_due wait_due has_expired closed_at
    leave_loop begin_at fail_at
ends = refl

returned-EndsWell_example : EndsWell 6 (happen tick (happens cut_off (accept 5)))
returned-EndsWell_example = returned-EndsWell 5 cut_off 6 waits ends

-- Another reading of the clock, of the same millisecond where the ID is made.
abbrev echo : Env
echo = record no_service { clock = λ i. 1001 }

same_id : (room_message no_service ann "lobby" "hi").id ≡ (room_message echo ann "attic" "hello").id
unfolding room_message
same_id = refl

room_message-id_inj_example :
    (no_service.clock 1 ≡ echo.clock 1)
    × (ann.user_id ≡ ann.user_id)
    × (no_service.random ≡ echo.random)
room_message-id_inj_example =
    room_message-id_inj no_service echo ann ann "lobby" "attic" "hi" "hello" (omega arith)
      (omega arith) same_id
