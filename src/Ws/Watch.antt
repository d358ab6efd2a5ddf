-- ===== src/Ws/Watch.antt =====
-- internal/gateway/ws_handle.go: the deadlines and the goroutines of one connection. The read loop
-- has a deadline that only a pong moves, a ticker sends pings, each write has a deadline of its
-- own, and at the end the handler waits for the write goroutine. Time is in milliseconds; what the
-- network and the peer do is a list of events.
pub mod Returns
pub mod Alive
pub mod Writes
use go_chat_x.Common.{
  ℕ, suc, ◌+◌, Bool, true, false, not, ◌&&◌, ◌||◌, Option, none, some, List, [], ◌∷◌, leb,
  if◌then◌else◌,
}

abbrev pub read_timeout : ℕ
read_timeout = 60000

abbrev pub ping_period : ℕ
ping_period = 30000

abbrev pub write_timeout : ℕ
write_timeout = 10000

abbrev pub grace : ℕ
grace = 12000

-- The handler is in its read loop, waits since an instant for the write goroutine, or has returned.
pub data Stage : Type 0 where
  serving : Stage
  leaving : (since : ℕ) → Stage
  returned : Stage

-- `asked` is the instant of the oldest ping that no pong has answered, `writing` that at which the
-- write in progress has begun; `writer_done` is the closed channel `done`.
pub record Watch : Type 0 where
  pub now : ℕ
  pub deadline : ℕ
  pub next_ping : ℕ
  pub pinging : Bool
  -- a frame is being handled
  pub busy : Bool
  pub asked : Option ℕ
  pub writing : Option ℕ
  pub writer_done : Bool
  pub stage : Stage

-- A connection that is accepted at the instant `t`.
unfoldable pub accept : ℕ → Watch
accept t = record {
  now = t;
  deadline = t + read_timeout;
  next_ping = t + ping_period;
  pinging = true;
  busy = false;
  asked = none;
  writing = none;
  writer_done = false;
  stage = serving;
}

unfoldable pub oldest_ask : Option ℕ → ℕ → Option ℕ
oldest_ask none t = some t
oldest_ask (some s) t = some s

-- `case <-ticker.C`
unfoldable pub ping_due : Watch → Watch
unfolding oldest_ask
ping_due w =
    if w.pinging && leb w.next_ping w.now
    then record w { next_ping = w.next_ping + ping_period; asked = oldest_ask w.asked w.now }
    else w

unfoldable pub has_expired : Option ℕ → ℕ → Bool
has_expired none t = false
has_expired (some s) t = leb (s + write_timeout) t

-- A write that meets its deadline fails, and the write goroutine returns.
unfoldable pub write_due : Watch → Watch
unfolding has_expired
write_due w =
    if has_expired w.writing w.now then record w { writing = none; writer_done = true } else w

-- The read loop is left: `close(pingDone)`.
unfoldable pub leave_loop : Watch → Watch
leave_loop w = record w { stage = leaving w.now; pinging = false }

-- ReadMessage fails at its deadline; while a frame is handled it is not called.
unfoldable pub read_due : Stage → Watch → Watch
unfolding leave_loop
read_due serving w = if not w.busy && leb w.deadline w.now then leave_loop w else w
read_due _ w = w

-- `select { case <-done: case <-time.After(12 * time.Second): }`
unfoldable pub wait_due : Stage → Watch → Watch
wait_due (leaving since) w =
    if w.writer_done || leb (since + grace) w.now then record w { stage = returned } else w
wait_due _ w = w

pub data Happening : Type 0 where
  tick pong received handled closed write_begins write_ends write_fails ping_fails : Happening

-- A millisecond passes.
unfoldable pub tick_of : Watch → Watch
unfolding ping_due write_due read_due wait_due
tick_of w =
    let a : Watch = write_due (ping_due (record w { now = suc w.now })) in
    let b : Watch = read_due a.stage a in wait_due b.stage b

-- The handler of pongs runs inside ReadMessage.
unfoldable pub pong_at : Stage → Watch → Watch
pong_at serving w = if w.busy then w else record w { deadline = w.now + read_timeout; asked = none }
pong_at _ w = w

-- The peer closes, or reading fails, when ReadMessage is called.
unfoldable pub closed_at : Stage → Watch → Watch
unfolding leave_loop
closed_at serving w = if w.busy then w else leave_loop w
closed_at _ w = w

unfoldable pub begin_at : Option ℕ → Watch → Watch
begin_at none w = if w.writer_done then w else record w { writing = some w.now }
begin_at (some _) w = w

unfoldable pub fail_at : Option ℕ → Watch → Watch
fail_at none w = w
fail_at (some _) w = record w { writing = none; writer_done = true }

-- ReadMessage returns a frame, which moves no deadline, and its case begins.
unfoldable pub received_at : Stage → Watch → Watch
received_at serving w = record w { busy = true }
received_at _ w = w

-- The case has ended, and ReadMessage is called again.
unfoldable pub handled_at : Watch → Watch
unfolding read_due
handled_at w = let v : Watch = record w { busy = false } in read_due v.stage v

unfoldable pub happen : Happening → Watch → Watch
unfolding tick_of pong_at closed_at begin_at fail_at received_at handled_at
happen tick w = tick_of w
happen pong w = pong_at w.stage w
happen received w = received_at w.stage w
happen handled w = handled_at w
happen closed w = closed_at w.stage w
happen write_begins w = begin_at w.writing w
happen write_ends w = record w { writing = none }
happen write_fails w = fail_at w.writing w
happen ping_fails w = record w { pinging = false }

unfoldable pub happens : List Happening → Watch → Watch
unfolding happen
happens [] w = w
happens (e ∷ es) w = happens es (happen e w)
