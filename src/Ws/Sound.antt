-- ===== src/Ws/Sound.antt =====
-- What the write goroutine and the way out of a room leave of sound maps and channels.
use mathlib.Core.List.{tail}
use go_chat_x.Common.{◌≤◌, length, arith, ℕ, List, [], ◌∷◌}
use go_chat_x.Go.{modify}
use go_chat_x.Go.Keeps.{Keeps}
use go_chat_x.Protocol.{WsPayload}
use go_chat_x.Hub.Sound.{IsSound}
use go_chat_x.Ws.Loop.{take_oldest, write_next}

length-tail : (b : List WsPayload) → length (tail b) ≤ length b
length-tail [] = omega arith
length-tail (x ∷ xs) = omega arith

pub write_next-IsSound : (k : ℕ) → Keeps IsSound (write_next k)
unfolding write_next take_oldest modify
write_next-IsSound k = record {
  at = λ h v. record {
    online_named = v.online_named;
    members_named = v.members_named;
    room_named = v.room_named;
    room_old = v.room_old;
    fits = λ j. ground (arith, v.fits j, v.fits k, length-tail (h.chan k).buf);
  };
}
