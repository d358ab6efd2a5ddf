-- ===== src/Storage/History.antt =====
-- What QueryHistory finds, and what SaveMessage makes it find.
use mathlib.Core.List.{Perm, Permᴰ}
use mathlib.Core.Logic.{∥∥₁_elim}
use mathlib.Core.Bool.{Bool-set}
use go_chat_x.Common.{
  ℕ, ◌≤◌, String, ◌≡◌, ◌≢◌, refl, ap, ◌∙◌, inl, inr, Bool, true, false, some, List, [], ◌∷◌, ◌++◌,
  arith, length, if◌then◌else◌, All, All-map, Bool-cases, eq_iff,
}
use go_chat_x.Message.{ChatMessage}
use go_chat_x.Storage.Documents.{
  Document, Condition, room_id_is, holds, hold, select, IsNewestFirst, newest_first, Collection,
}
use go_chat_x.Storage.{decode_all, undelivered_for, with_id, save_message, query_history}
use go_chat_x.Storage.Pull.{length-decode_all-le, read_cases}

pub select-append :
    (cs : List Condition) (xs ys : List Document)
    → select cs (xs ++ ys) ≡ select cs xs ++ select cs ys
unfolding select
select-append cs [] ys = refl
select-append cs (x ∷ xs) ys = ground (arith, select-append cs xs ys)

-- The messages are sorted, newest first.
abbrev pub AreNewestFirst : List ChatMessage → Type 0
AreNewestFirst [] = Unit
AreNewestFirst (m ∷ ms) = All (λ n. n.timestamp ≤ m.timestamp) ms × AreNewestFirst ms

decode_all-All :
    (P : ChatMessage → Type 0) (ds : List Document)
    → All (λ d. P d.message) ds
    → All P (decode_all ds)
unfolding decode_all
decode_all-All P [] a = tt
decode_all-All P (d ∷ ds) a = elim (Bool-cases d.decodes) [
  | inl y ↦ rw y (a.0, decode_all-All P ds a.1)
  | inr n ↦ rw n (decode_all-All P ds a.1)
]

decode_all-AreNewestFirst : (ds : List Document) → IsNewestFirst ds → AreNewestFirst (decode_all ds)
unfolding decode_all
decode_all-AreNewestFirst [] s = tt
decode_all-AreNewestFirst (d ∷ ds) s = elim (Bool-cases d.decodes) [
  | inl y ↦ rw y (decode_all-All _ ds s.0, decode_all-AreNewestFirst ds s.1)
  | inr n ↦ rw n (decode_all-AreNewestFirst ds s.1)
]

select-All :
    (cs : List Condition) (ds : List Document) → All (λ d. hold cs d.message ≡ true) (select cs ds)
unfolding select
select-All cs [] = tt
select-All cs (d ∷ ds) = elim (Bool-cases (hold cs d.message)) [
  | inl y ↦ rw y (y, select-All cs ds)
  | inr n ↦ rw n (select-All cs ds)
]

unfoldable every : (Document → Bool) → List Document → Bool
every p [] = true
every p (d ∷ ds) = let rest = every p ds in if p d then rest else false

Permᴰ-every : (p : Document → Bool) {xs ys : List Document} → Permᴰ xs ys → every p xs ≡ every p ys
unfolding every
Permᴰ-every p Permᴰ.nil = refl
Permᴰ-every p (Permᴰ.cons e q) = ground (arith, ap p e, Permᴰ-every p q)
Permᴰ-every p (Permᴰ.swap e f) = ground (arith, ap p e, ap p f)
Permᴰ-every p (Permᴰ.trans q r) = Permᴰ-every p q ∙ Permᴰ-every p r

perm-every : (p : Document → Bool) {xs ys : List Document} → Perm xs ys → every p xs ≡ every p ys
perm-every p q = ∥∥₁_elim q (Bool-set _ _) (Permᴰ-every p)

every-All :
    (p : Document → Bool) (ds : List Document) → every p ds ≡ true → All (λ d. p d ≡ true) ds
unfolding every
every-All p [] e = tt
every-All p (d ∷ ds) e = elim (Bool-cases (p d)) [
  | inl y ↦ (y, every-All p ds (ground arith))
  | inr n ↦ absurd (ground arith)
]

every-append_left :
    (p : Document → Bool) (xs ys : List Document) → every p (xs ++ ys) ≡ true → every p xs ≡ true
unfolding every
every-append_left p [] ys e = refl
every-append_left p (x ∷ xs) ys e = ground (arith, every-append_left p xs ys)

every-select :
    (cs : List Condition) (ds : List Document)
    → every (λ d. hold cs d.message) (select cs ds) ≡ true
unfolding every select
every-select cs [] = refl
every-select cs (d ∷ ds) = ground (arith, every-select cs ds)

select_one :
    (u : String) (d : Document)
    → hold (undelivered_for u) d.message ≡ true
    → select (undelivered_for u) (d ∷ []) ≡ d ∷ []
unfolding select
select_one u d e = rw e refl

-- The message was sent to the room.
abbrev pub IsIn : String → ChatMessage → Type 0
IsIn room m = m.room_id ≡ room

-- What a query that succeeds promises.
pub record IsHistory (room : String) (limit : ℕ) (ms : List ChatMessage) : Type 0 where
  pub in_room : All (IsIn room) ms
  pub sorted : AreNewestFirst ms
  pub limited : length ms ≤ limit

module _ (C : Collection) where
  open C use {State, documents, find, find_found, find_sorted, insert_one, inserted}

  -- The history that a query returns is of the room asked for, newest first, and no longer than the
  -- limit.
  pub query_history-IsHistory :
      (room : String) (limit : ℕ) (s : State) (ms : List ChatMessage)
      → query_history C room limit s ≡ some ms
      → IsHistory room limit ms
  unfolding query_history
  query_history-IsHistory room limit s ms e =
      let (c, found, whole, d) = read_cases _ ms e in
      let (rest, perm, limited) =
        find_found (room_id_is room ∷ []) newest_first limit s c found whole in
      record {
        in_room = rw d (
            decode_all-All (IsIn room) c.items (
              All-map _ _ (λ d e. of_room d e) c.items
                (every-All _ c.items (
                  every-append_left _ c.items rest
                    (perm-every _ perm ∙ every-select (room_id_is room ∷ []) (documents s))))));
        sorted = rw d (
            decode_all-AreNewestFirst c.items (find_sorted (room_id_is room ∷ []) limit s c found));
        limited = omega (arith, ap length d, length-decode_all-le c.items, limited);
      }
    where
      of_room : (d : Document) → hold (room_id_is room ∷ []) d.message ≡ true → IsIn room d.message
      of_room d e = unfold hold holds in ground (arith, eq_iff d.message.room_id room)

  -- A private message that is saved without an error as not delivered, to a user with a name,
  -- waits for that user, after those that waited before.
  pub save_message-waits :
      (now : ℕ) (m : ChatMessage) (s : State)
      → m.delivered ≡ false
      → m.to ≢ ""
      → (save_message C now m s).0 ≡ true
      → select (undelivered_for m.to) (documents (save_message C now m s).1)
        ≡ select (undelivered_for m.to) (documents s)
          ++ record { message = with_id now m; decodes = true } ∷ []
  unfolding save_message
  save_message-waits now m s waits named saved =
      ap (select (undelivered_for m.to)) (inserted (with_id now m) s saved)
      ∙ select-append (undelivered_for m.to) (documents s) _
      ∙ ap (◌++◌ (select (undelivered_for m.to) (documents s)))
          (select_one m.to _ (selected m waits named))
    where
      selected :
          (m : ChatMessage)
          → m.delivered ≡ false
          → m.to ≢ ""
          → hold (undelivered_for m.to) (with_id now m) ≡ true
      selected m waits named =
          unfold hold holds with_id in ground (arith, eq_iff m.to "", eq_iff m.to m.to)
