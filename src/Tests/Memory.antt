-- ===== src/Tests/Memory.antt =====
-- A collection in memory that meets the documented behaviour of the driver and never fails.
use mathlib.Core.List.{Perm}
use mathlib.Core.List.Perm
use Prim.Native.Nat.{min}
use go_chat_x.Common.{
  ℕ, zero, suc, ◌≤◌, ◌≡◌, refl, ap, ◌∙◌, true, false, Option, some, List, [], ◌∷◌, ◌++◌, map, arith,
  length, leb, if◌then◌else◌, All, All-map, Bool-cases, inl, inr,
}
use go_chat_x.Storage.Documents.{
  Document, Condition, select, mark, IsNewestFirst, Order, natural, newest_first, Cursor,
  Collection,
}

unfoldable pub take : ℕ → List Document → List Document
take zero ds = []
take (suc n) [] = []
take (suc n) (d ∷ ds) = d ∷ take n ds

drop : ℕ → List Document → List Document
drop zero ds = ds
drop (suc n) [] = []
drop (suc n) (d ∷ ds) = drop n ds

take-append-drop : (n : ℕ) (ds : List Document) → take n ds ++ drop n ds ≡ ds
unfolding take drop
take-append-drop zero ds = refl
take-append-drop (suc n) [] = refl
take-append-drop (suc n) (d ∷ ds) = ap (◌∷◌ d) (take-append-drop n ds)

length-take : (n : ℕ) (ds : List Document) → length (take n ds) ≡ min n (length ds)
unfolding take
length-take zero ds = omega arith
length-take (suc n) [] = omega arith
length-take (suc n) (d ∷ ds) = omega (arith, length-take n ds)

abbrev time : Document → ℕ
time d = d.message.timestamp

unfoldable pub put : Document → List Document → List Document
put d [] = d ∷ []
put d (e ∷ es) = if leb (time e) (time d) then d ∷ e ∷ es else e ∷ put d es

unfoldable pub sort : List Document → List Document
unfolding put
sort [] = []
sort (d ∷ ds) = put d (sort ds)

unfoldable pub arrange : Order → List Document → List Document
unfolding sort
arrange natural ds = ds
arrange newest_first ds = sort ds

put-perm : (d : Document) (es : List Document) → Perm (put d es) (d ∷ es)
unfolding put
put-perm d [] = Perm.refl _
put-perm d (e ∷ es) = elim (Bool-cases (leb (time e) (time d))) [
  | inl y ↦ rw (y, put) (Perm.refl _)
  | inr n ↦ rw (n, put) (Perm.trans (Perm.cons e (put-perm d es)) (Perm.swap d e es))
]

sort-perm : (ds : List Document) → Perm (sort ds) ds
unfolding sort
sort-perm [] = Perm.refl _
sort-perm (d ∷ ds) = Perm.trans (put-perm d (sort ds)) (Perm.cons d (sort-perm ds))

arrange-perm : (o : Order) (ds : List Document) → Perm (arrange o ds) ds
unfolding arrange
arrange-perm natural ds = Perm.refl ds
arrange-perm newest_first ds = sort-perm ds

length-put : (d : Document) (es : List Document) → length (put d es) ≡ suc (length es)
unfolding put
length-put d [] = refl
length-put d (e ∷ es) = ground (arith, length-put d es)

length-sort : (ds : List Document) → length (sort ds) ≡ length ds
unfolding sort
length-sort [] = refl
length-sort (d ∷ ds) = length-put d (sort ds) ∙ ap suc (length-sort ds)

length-arrange : (o : Order) (ds : List Document) → length (arrange o ds) ≡ length ds
unfolding arrange
length-arrange natural ds = refl
length-arrange newest_first ds = length-sort ds

put-All :
    (P : Document → Type 0) (d : Document) (es : List Document) → P d → All P es → All P (put d es)
unfolding put
put-All P d [] p h = (p, tt)
put-All P d (e ∷ es) p h = elim (Bool-cases (leb (time e) (time d))) [
  | inl y ↦ rw (y, put) (p, h)
  | inr n ↦ rw (n, put) (h.0, put-All P d es p h.1)
]

put-IsNewestFirst :
    (d : Document) (es : List Document) → IsNewestFirst es → IsNewestFirst (put d es)
unfolding put
put-IsNewestFirst d [] h = (tt, tt)
put-IsNewestFirst d (e ∷ es) h = elim (Bool-cases (leb (time e) (time d))) [
  | inl y ↦
      rw (y, put) ((ground arith, All-map _ _ (λ x below. ground (arith, y, below)) es h.0), h)
  | inr n ↦
      rw (n, put)
        (put-All (λ x. time x ≤ time e) d es (ground arith) h.0, put-IsNewestFirst d es h.1)
]

sort-IsNewestFirst : (ds : List Document) → IsNewestFirst (sort ds)
unfolding sort
sort-IsNewestFirst [] = tt
sort-IsNewestFirst (d ∷ ds) = put-IsNewestFirst d (sort ds) (sort-IsNewestFirst ds)

take-All : (P : Document → Type 0) (n : ℕ) (ds : List Document) → All P ds → All P (take n ds)
unfolding take
take-All P zero ds h = tt
take-All P (suc n) [] h = tt
take-All P (suc n) (d ∷ ds) h = (h.0, take-All P n ds h.1)

take-IsNewestFirst : (n : ℕ) (ds : List Document) → IsNewestFirst ds → IsNewestFirst (take n ds)
unfolding take
take-IsNewestFirst zero ds h = tt
take-IsNewestFirst (suc n) [] h = tt
take-IsNewestFirst (suc n) (d ∷ ds) h = (take-All _ n ds h.0, take-IsNewestFirst n ds h.1)

unfoldable pub find_in : List Condition → Order → ℕ → List Document → Option Cursor
unfolding take arrange select
find_in cs o limit s =
    some (record { items = take limit (arrange o (select cs s)); broken = false })

items_of :
    (cs : List Condition) (o : Order) (limit : ℕ) (s : List Document) (c : Cursor)
    → find_in cs o limit s ≡ some c
    → c.items ≡ take limit (arrange o (select cs s))
unfolding find_in
items_of cs o limit s c e = ground arith

pub find_in_found :
    (cs : List Condition) (o : Order) (limit : ℕ) (s : List Document) (c : Cursor)
    → find_in cs o limit s ≡ some c
    → c.broken ≡ false
    → (rest : List Document) × Perm (c.items ++ rest) (select cs s)
      × (length c.items ≡ min limit (length (select cs s)))
find_in_found cs o limit s c e whole =
    let all : List Document = arrange o (select cs s) in
    let same = items_of cs o limit s c e in
    (
      drop limit all,
      rw (same, take-append-drop limit all) (arrange-perm o (select cs s)),
      rw (same, length-take limit all, length-arrange o (select cs s)) refl,
    )

pub find_in_sorted :
    (cs : List Condition) (limit : ℕ) (s : List Document) (c : Cursor)
    → find_in cs newest_first limit s ≡ some c
    → IsNewestFirst c.items
unfolding arrange
find_in_sorted cs limit s c e =
    rw (items_of cs newest_first limit s c e)
      (take-IsNewestFirst limit _ (sort-IsNewestFirst (select cs s)))

abbrev pub memory : Collection
memory = record {
  State = List Document;
  documents = λ s. s;
  find = find_in;
  insert_one = λ m s. (true, s ++ record { message = m; decodes = true } ∷ []);
  update_many = λ cs s. (true, map (mark cs) s);
  find_found = find_in_found;
  find_sorted = find_in_sorted;
  inserted = λ m s e. refl;
  updated = λ cs s e. refl;
}
