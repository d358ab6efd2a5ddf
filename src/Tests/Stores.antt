-- ===== src/Tests/Stores.antt =====
-- The theorems on the storage layer for a few stored messages.
use mathlib.Core.List.{Perm}
use go_chat_x.Common.{
  ℕ, zero, suc, ◌<◌, ◌≤◌, String, ◌≡◌, ◌≢◌, refl, arith, eq_iff, Bool, true, false, some, List, [],
  ◌∷◌, length,
}
use go_chat_x.Message.{ChatMessage}
use go_chat_x.Storage.Documents.{Document, select, hold, holds}
use go_chat_x.Storage.{
  decode_all, read_cursor, pull_limit, save_message, query_history, mark_delivered, after_read,
  pull_undelivered_for_user,
}
use go_chat_x.Storage.Pull.{Pulls}
use go_chat_x.Storage.Delivery.{waiting, pull_twice, pull-perm, pull_loses}
use go_chat_x.Storage.History.{IsHistory, query_history-IsHistory}
use go_chat_x.Tests.Memory.{memory, find_in, take, put, sort, arrange}

abbrev letter : String → Bool → ChatMessage
letter to delivered = record {
  id = "1";
  from = "bob";
  to = to;
  room_id = "";
  content = "hi";
  timestamp = 1000;
  delivered = delivered;
}

abbrev post : String → ℕ → ChatMessage
post room timestamp = record {
  id = "2";
  from = "bob";
  to = "";
  room_id = room;
  content = "hello";
  timestamp = timestamp;
  delivered = true;
}

abbrev doc : ChatMessage → Document
doc m = record { message = m; decodes = true }

abbrev before : List Document
before =
    doc (letter "ann" false)
    ∷ doc (letter "eve" false)
    ∷ doc (post "lobby" 5)
    ∷ doc (post "lobby" 9)
    ∷ []

abbrev after : List Document
after =
    doc (letter "ann" true)
    ∷ doc (letter "eve" false)
    ∷ doc (post "lobby" 5)
    ∷ doc (post "lobby" 9)
    ∷ []

pulls : Pulls memory "ann" before (letter "ann" false ∷ []) after
unfolding pull_undelivered_for_user after_read mark_delivered read_cursor decode_all find_in take
    arrange select hold holds
pulls = refl

second_pull : Pulls memory "ann" after [] after
unfolding pull_undelivered_for_user after_read mark_delivered read_cursor decode_all find_in take
    arrange select hold holds
second_pull = refl

abbrev copies_of : ℕ → Bool → List Document
copies_of zero delivered = []
copies_of (suc n) delivered = doc (letter "ann" delivered) ∷ copies_of n delivered

abbrev letters : ℕ → List ChatMessage
letters zero = []
letters (suc n) = letter "ann" false ∷ letters n

letter-ne : ◌≢◌ {A = List ChatMessage} (letter "ann" false ∷ []) []
letter-ne e = cc

letters-ne : letters 200 ≢ []
letters-ne e = cc

ann-ne : ◌≢◌ {A = String} "ann" ""
ann-ne e = ground (arith, eq_iff "ann" "")

pull_twice_example : ◌≡◌ {A = List ChatMessage} [] []
pull_twice_example =
    pull_twice memory "ann" before (letter "ann" false ∷ []) after [] after pulls letter-ne
      second_pull

few : length (waiting memory "ann" before) ≤ pull_limit
unfolding select hold holds
few = omega arith

pull-perm_example : Perm (letter "ann" false ∷ []) (decode_all (waiting memory "ann" before))
pull-perm_example = pull-perm memory "ann" before (letter "ann" false ∷ []) after pulls few

large_pull : Pulls memory "ann" (copies_of 201 false) (letters 200) (copies_of 201 true)
unfolding pull_undelivered_for_user after_read mark_delivered read_cursor decode_all find_in take
    arrange select hold holds
large_pull = refl

many : pull_limit < length (waiting memory "ann" (copies_of 201 false))
unfolding select hold holds
many = omega arith

pull_loses_example :
    (length (letters 200) < length (waiting memory "ann" (copies_of 201 false)))
    × (waiting memory "ann" (copies_of 201 true) ≡ [])
pull_loses_example =
    pull_loses memory "ann" (copies_of 201 false) (letters 200) (copies_of 201 true) large_pull
      letters-ne many

finds : query_history memory "lobby" 50 before ≡ some (post "lobby" 9 ∷ post "lobby" 5 ∷ [])
unfolding query_history read_cursor decode_all find_in take arrange sort put select hold holds
finds = refl

query_history-IsHistory_example : IsHistory "lobby" 50 (post "lobby" 9 ∷ post "lobby" 5 ∷ [])
query_history-IsHistory_example =
    query_history-IsHistory memory "lobby" 50 before (post "lobby" 9 ∷ post "lobby" 5 ∷ []) finds

saves : (save_message memory 7 (letter "ann" false) before).0 ≡ true
unfolding save_message
saves = refl
