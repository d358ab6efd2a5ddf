-- ===== src/Ws/Shows.antt =====
-- Sends, room look-ups and the removal of empty rooms change nothing of who is online and who is in
-- which room.
use go_chat_x.Common.{ℕ, String, ◌≡◌, refl, ◌∙◌, Bool-cases, inl, inr}
use go_chat_x.GoMap.{lookup}
use go_chat_x.Go.{Go, modify}
use go_chat_x.Go.Keeps.{Keeps}
use go_chat_x.Protocol.{WsPayload}
use go_chat_x.Hub.{Hub, try_send, close_conn, close_chan, get_or_create_room, remove_empty_room}
use go_chat_x.Ws.Loop.{write_next}
use go_chat_x.Ws.Sound.{write_next-IsSound}
use go_chat_x.Hub.Lemmas.{sent, try_send_open, try_send_closed, get_or_create_room_lem}
use go_chat_x.Hub.Rules.{QuietRules}
use go_chat_x.Hub.Sound.{IsSound, IsSound-HubRules}
use go_chat_x.Hub.View.{Chat, view, view_of_maps, view-with_room, view-drop_if_empty}

-- A sound hub that shows `c`.
pub record Shows (c : Chat) (h : Hub) : Type 0 where
  pub sound : IsSound h
  pub seen : view h ≡ c

try_send-view : (k : ℕ) (b : WsPayload) (h : Hub) → view (try_send k b h).1 ≡ view h
unfolding sent
try_send-view k b h = elim (Bool-cases (h.chan k).closed) [
  | inl shut ↦ rw (try_send_closed k b h shut) refl
  | inr fine ↦ rw (try_send_open k b h fine) (view_of_maps h (sent k b h) refl refl refl)
]

close_conn-view : (k : ℕ) (h : Hub) → view (close_conn k h).1 ≡ view h
unfolding close_conn modify
close_conn-view k h = view_of_maps h _ refl refl refl

close_chan-view : (k : ℕ) (h : Hub) → view (close_chan k h).1 ≡ view h
unfolding close_chan modify
close_chan-view k h = view_of_maps h _ refl refl refl

get_or_create_room-view :
    (r : String) (h : Hub) → IsSound h → view (get_or_create_room r h).1 ≡ view h
get_or_create_room-view r h v =
    rw (get_or_create_room_lem r h) (view-with_room r (lookup r h.rooms) h v refl)

remove_empty_room-view : (r : String) (h : Hub) → view (remove_empty_room r h).1 ≡ view h
unfolding remove_empty_room modify
remove_empty_room-view r h = view-drop_if_empty r (lookup r h.rooms) h refl

write_next-view : (k : ℕ) (h : Hub) → view (write_next k h).1 ≡ view h
unfolding write_next modify
write_next-view k h = view_of_maps h _ refl refl refl

module _ (c : Chat) where
  shows :
      {A : Type 0} (m : Go Hub A)
      → Keeps IsSound m
      → ((h : Hub) → IsSound h → view (m h).1 ≡ view h)
      → Keeps (Shows c) m
  shows m kept same = record {
    at = λ h v. record { sound = kept.at h v.sound; seen = same h v.sound ∙ v.seen };
  }

  pub Shows-QuietRules : QuietRules (Shows c)
  Shows-QuietRules =
      let sound = IsSound-HubRules.quietly in
      record {
        sends = λ k b. shows _ (sound.sends k b) (λ h v. try_send-view k b h);
        shuts = λ k. shows _ (sound.shuts k) (λ h v. close_conn-view k h);
        closes = λ k. shows _ (sound.closes k) (λ h v. close_chan-view k h);
        finds = λ r. shows _ (sound.finds r) (get_or_create_room-view r);
        drops = λ r. shows _ (sound.drops r) (λ h v. remove_empty_room-view r h);
      }

  pub write_next-Shows : (k : ℕ) → Keeps (Shows c) (write_next k)
  write_next-Shows k = shows _ (write_next-IsSound k) (λ h v. write_next-view k h)
