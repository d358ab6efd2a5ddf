-- ===== src/Tests/Chats.antt =====
-- The theorems on rooms and on private messages for ann and bob.
use mathlib.Core.List.{Mem}
use go_chat_x.Common.{
  ◌≤◌, String, ◌≡◌, ◌≢◌, ◌↔◌, refl, ap, sym, subst, ◌∙◌, arith, eq_iff, Bool, true, false, none,
  some, List, [], ◌∷◌, length, All,
}
use go_chat_x.GoMap.{lookup}
use go_chat_x.Go.{done, pure, if_some, gets, when, modify, ◌>>=◌}
use go_chat_x.Message.{ChatMessage}
use go_chat_x.Protocol.{WsPayload}
use go_chat_x.Hub.{
  offer, members, broadcast, peek_room, allocate_room, create_room, get_or_create_room, try_send,
  get_online_client,
}
use go_chat_x.Hub.Lemmas.{with_room}
use go_chat_x.Hub.Broadcast.{IsOpenIn, broadcast-eq-done_iff}
use go_chat_x.Hub.Race.{raced, raced-orphan}
use go_chat_x.Storage.Documents.{Document, select, hold, holds}
use go_chat_x.Storage.{
  decode_all, read_cursor, pull_limit, with_id, save_message, mark_delivered, after_read,
  pull_undelivered_for_user,
}
use go_chat_x.Storage.Delivery.{waiting}
use go_chat_x.Text.{numeral, digit, itoa_from, itoa, four_digits}
use go_chat_x.World.{no_session, on_hub, send_json, spawn_save}
use go_chat_x.Ws.Chat.{on_private, private_message}
use go_chat_x.Ws.Loop.{pick, save_picked, run_save}
use go_chat_x.Ws.Delivery.{after_save, after_log_in, private-arrives}
use go_chat_x.Tests.Memory.{memory, find_in, take, arrange}
use go_chat_x.Tests.Scene.{dev, no_service, bob, lobby, without_ann, world_of}

abbrev hi : WsPayload
hi = WsPayload.chat "bob" "lobby" 1000 "hi"

creates : create_room "attic" lobby ≡ (done 1, with_room "attic" none lobby)
unfolding create_room allocate_room peek_room gets if_some ◌>>=◌ lookup with_room
creates = refl

lobby_found : lookup "lobby" without_ann.rooms ≡ some 0
unfolding lookup
lobby_found = refl

ann_away : lookup "ann" without_ann.online ≡ none
unfolding lookup
ann_away = refl

ann-ne : ◌≢◌ {A = String} "ann" ""
ann-ne e = ground (arith, eq_iff "ann" "")

broadcast-eq-done_iff_example :
    ((broadcast 0 hi lobby).0 ≡ done tt) ↔ All (IsOpenIn lobby) (members 0 lobby)
broadcast-eq-done_iff_example = broadcast-eq-done_iff 0 hi lobby

raced-orphan_example :
    (get_or_create_room "lobby" without_ann ≡ (done 0, without_ann))
    × (lookup "bob" ((raced "lobby" 0 bob without_ann).room 0).clients ≡ some bob)
    × (get_or_create_room "lobby" (raced "lobby" 0 bob without_ann) ≡ (
      done (raced "lobby" 0 bob without_ann).fresh,
      with_room "lobby" none (raced "lobby" 0 bob without_ann),
    ))
raced-orphan_example = raced-orphan "lobby" 0 bob without_ann lobby_found refl

abbrev letter : Bool → ChatMessage
letter delivered = record {
  id = "1001_bob_ann_0007";
  from = "bob";
  to = "ann";
  room_id = "";
  content = "hi";
  timestamp = 1002;
  delivered = delivered;
}

abbrev letters : Bool → List Document
letters delivered = record { message = letter delivered; decodes = true } ∷ []

pulled :
    pull_undelivered_for_user memory "ann" (letters false)
    ≡ (some (letter false ∷ []), letters true)
unfolding pull_undelivered_for_user after_read mark_delivered read_cursor decode_all find_in take
    arrange select hold holds
pulled = refl

saves : (save_message memory 2000 (private_message no_service bob "ann" "hi" false) []).0 ≡ true
unfolding save_message
saves = refl

-- What the frame and the saving goroutine leave in the collection.
abbrev stored : List Document
stored =
    (after_save memory dev no_service no_service 1 0 2000 86400 "ann" "hi" bob no_session
      (world_of without_ann)).store

stored_lem : stored ≡ letters false
unfolding run_save save_picked pick save_message with_id private_message itoa itoa_from numeral
    digit four_digits on_private spawn_save when modify if_some ◌>>=◌ on_hub get_online_client gets
    lookup send_json try_send offer pure
stored_lem = refl

pulled_then :
    pull_undelivered_for_user memory "ann" stored ≡ (some (letter false ∷ []), letters true)
pulled_then = ap (pull_undelivered_for_user memory "ann") stored_lem ∙ pulled

few : length (waiting memory "ann" stored) ≤ pull_limit
few = subst (λ s. length (waiting memory "ann" s) ≤ pull_limit) (sym stored_lem) few_letters
  where
    few_letters : length (waiting memory "ann" (letters false)) ≤ pull_limit
    few_letters = unfold select hold holds in omega arith

private-arrives_example :
    Mem
      (WsPayload.private "bob" "ann" 1002 "hi")
      ((after_log_in memory dev no_service no_service 1 0 2000 86400 "ann" "hi" bob no_session
          (world_of without_ann)).hub.chan
        0).buf
private-arrives_example =
    private-arrives memory dev no_service no_service 1 0 2000 86400 "ann" "hi" bob no_session
      (world_of without_ann) (letter false ∷ []) (letters true) refl ann_away ann-ne
      (λ e. absurd (omega arith)) refl refl (omega arith) saves pulled_then few
