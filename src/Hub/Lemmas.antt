-- ===== src/Hub/Lemmas.antt =====
-- What each statement about the rooms does, in one equation.
use go_chat_x.Common.{ℕ, suc, String, ◌≡◌, refl, Option, none, some, arith, update, true, false}
use go_chat_x.GoMap.{lookup, insert}
use go_chat_x.Go.{done, panic, panics, modify, pure, gets, if_some}
use go_chat_x.Protocol.{WsPayload}
use go_chat_x.Hub.{
  Chan, Hub, new_room, offer, try_send, allocate_room, create_room, get_or_create_room,
}

-- The pointer that getOrCreateRoom returns, and what it leaves behind.
unfoldable pub pointer : Option ℕ → Hub → ℕ
pointer none h = h.fresh
pointer (some p) h = p

unfoldable pub with_room : String → Option ℕ → Hub → Hub
with_room room_id none h = record h {
  rooms = insert room_id h.fresh h.rooms;
  room = update h.room h.fresh (new_room room_id);
  fresh = suc h.fresh;
}
with_room room_id (some p) h = h

pub create_room_lem :
    (r : String) (h : Hub)
    → create_room r h ≡ (done (pointer (lookup r h.rooms) h), with_room r (lookup r h.rooms) h)
unfolding create_room allocate_room if_some pure gets pointer with_room
create_room_lem r h = ground arith

-- Without another goroutine between its two halves, getOrCreateRoom returns the room that the
-- table has, and changes nothing, or else allocates one and enters it.
pub get_or_create_room_lem :
    (r : String) (h : Hub)
    → get_or_create_room r h
      ≡ (done (pointer (lookup r h.rooms) h), with_room r (lookup r h.rooms) h)
unfolding get_or_create_room if_some pure gets pointer with_room
get_or_create_room_lem r h = ground (arith, create_room_lem r h)

-- A payload goes into an open channel, or is dropped.
unfoldable pub sent : ℕ → WsPayload → Hub → Hub
sent k b h = record h { chan = update h.chan k (offer b (h.chan k)) }

pub try_send_open :
    (k : ℕ) (b : WsPayload) (h : Hub)
    → (h.chan k).closed ≡ false
    → try_send k b h ≡ (done tt, sent k b h)
unfolding try_send modify sent
try_send_open k b h e = rw e refl

pub try_send_closed :
    (k : ℕ) (b : WsPayload) (h : Hub) → (h.chan k).closed ≡ true → try_send k b h ≡ (panic, h)
unfolding try_send panics
try_send_closed k b h e = rw e refl

pub offer-closed : (b : WsPayload) (c : Chan) → (offer b c).closed ≡ c.closed
unfolding offer
offer-closed b c = ground arith

pub sent-closed :
    (k j : ℕ) (b : WsPayload) (h : Hub) → ((sent k b h).chan j).closed ≡ (h.chan j).closed
unfolding sent
sent-closed k j b h = ground (arith, offer-closed b (h.chan k))
