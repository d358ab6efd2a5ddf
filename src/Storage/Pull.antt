-- ===== src/Storage/Pull.antt =====
-- PullUndeliveredForUser: nothing is handed out twice, and what one call does not hand out is
-- marked all the same.
use mathlib.Core.List.{Perm, Permᴰ, filter_map}
use Prim.Native.Nat.{min}
use mathlib.Core.Logic.{∥∥₁_elim}
use native.Mathlib.Nat.{ℕ_set}
use go_chat_x.Common.{
  suc, ◌≤◌, String, ◌≡◌, ◌≢◌, refl, ap, ◌∙◌, ◌⊎◌, inr, true, false, Option, none, some, List, [],
  ◌∷◌, ◌++◌, map, arith, length, if◌then◌else◌, eq_iff,
}
use go_chat_x.Message.{ChatMessage}
use go_chat_x.Storage.Documents.{Document, holds, hold, select, mark, natural, Cursor, Collection}
use go_chat_x.Storage.{
  decode_all, read_cursor, undelivered_for, pull_limit, mark_delivered, after_read,
  pull_undelivered_for_user,
}

-- Once marked, no document is undelivered for the user.
unmarked-hold :
    (u : String) (d : Document)
    → hold (undelivered_for u) (mark (undelivered_for u) d).message ≡ false
unfolding hold holds
unmarked-hold u d = ground arith

pub select-mark :
    (u : String) (ds : List Document)
    → select (undelivered_for u) (map (mark (undelivered_for u)) ds) ≡ []
unfolding select
select-mark u [] = refl
select-mark u (d ∷ ds) = rw (unmarked-hold u d) (select-mark u ds)

pub length-decode_all-le : (ds : List Document) → length (decode_all ds) ≤ length ds
unfolding decode_all
length-decode_all-le [] = omega arith
length-decode_all-le (d ∷ ds) = ground (arith, length-decode_all-le ds)

-- The marks of one user leave the undelivered messages of another alone.
pub select-mark_ne :
    (u v : String) (ds : List Document)
    → v ≢ u
    → select (undelivered_for v) (map (mark (undelivered_for u)) ds) ≡ select (undelivered_for v) ds
unfolding select
select-mark_ne u v [] other = refl
select-mark_ne u v (d ∷ ds) other =
    ground (arith, select-mark_ne u v ds other, mark_ne d, unmarked d)
  where
    mark_ne :
        (d : Document)
        → hold (undelivered_for v) (mark (undelivered_for u) d).message
          ≡ hold (undelivered_for v) d.message
    mark_ne d = unfold hold holds in ground (arith, eq_iff d.message.to u, eq_iff d.message.to v)

    unmarked :
        (d : Document) → hold (undelivered_for v) d.message ≡ true → mark (undelivered_for u) d ≡ d
    unmarked d = unfold hold holds in ground (arith, eq_iff d.message.to u, eq_iff d.message.to v)

Permᴰ-length : {A : Type 0} {xs ys : List A} → Permᴰ xs ys → length xs ≡ length ys
Permᴰ-length Permᴰ.nil = refl
Permᴰ-length (Permᴰ.cons e p) = ap suc (Permᴰ-length p)
Permᴰ-length (Permᴰ.swap e f) = refl
Permᴰ-length (Permᴰ.trans p q) = Permᴰ-length p ∙ Permᴰ-length q

pub perm-length : {A : Type 0} {xs ys : List A} → Perm xs ys → length xs ≡ length ys
perm-length p = ∥∥₁_elim p (ℕ_set _ _) Permᴰ-length

-- Decode, as a partial function.
abbrev pub decode : Document → Option ChatMessage
decode d = if d.decodes then some d.message else none

pub decode_all-filter_map : (ds : List Document) → decode_all ds ≡ filter_map decode ds
unfolding decode_all filter_map
decode_all-filter_map [] = refl
decode_all-filter_map (d ∷ ds) = ground (arith, decode_all-filter_map ds)

pub nil_of_length : {A : Type 0} (xs : List A) → length xs ≡ 0 → xs ≡ []
nil_of_length [] e = refl
nil_of_length (x ∷ xs) e = absurd (omega arith)

-- What a cursor without an error gives.
pub read_cases :
    (o : Option Cursor) (ms : List ChatMessage)
    → read_cursor o ≡ some ms
    → (c : Cursor) × (o ≡ some c) × (c.broken ≡ false) × (ms ≡ decode_all c.items)
unfolding read_cursor
read_cases none ms e = absurd (no_value e)
  where
    no_value : none ≡ some ms → ⊥
    no_value e = cc
read_cases (some c) ms e = (c, refl, ground arith, ground arith)

module _ (C : Collection) (u : String) where
  open C use {State, documents, find, update_many, find_found, updated}

  abbrev pub Pulls : State → List ChatMessage → State → Type 0
  Pulls s ms s' = pull_undelivered_for_user C u s ≡ (some ms, s')

  update_cases :
      (m : ChatMessage) (ms ms' : List ChatMessage) (s s' : State)
      → mark_delivered C u (m ∷ ms) s ≡ (some ms', s')
      → (ms' ≡ m ∷ ms)
        × ((update_many (undelivered_for u) s).0 ≡ true)
        × (s' ≡ (update_many (undelivered_for u) s).1)
  unfolding mark_delivered
  update_cases m ms ms' s s' e = ground arith

  -- What a call that succeeds has read, and what it has changed.
  pub record HasPulled (s : State) (ms : List ChatMessage) (s' : State) : Type 0 where
    pub rest : List Document
    pub items : List Document
    pub read : Perm (items ++ rest) (select (undelivered_for u) (documents s))
    pub limited : length items ≡ min pull_limit (length (select (undelivered_for u) (documents s)))
    pub decoded : ms ≡ decode_all items
    pub marked :
        (ms ≡ []) × (s' ≡ s) ⊎ (documents s' ≡ map (mark (undelivered_for u)) (documents s))

  marked_cases :
      (ms : List ChatMessage) (ms' : List ChatMessage) (s s' : State)
      → mark_delivered C u ms s ≡ (some ms', s')
      → (ms' ≡ ms)
        × ((ms' ≡ []) × (s' ≡ s) ⊎ (documents s' ≡ map (mark (undelivered_for u)) (documents s)))
  unfolding mark_delivered
  marked_cases [] ms' s s' e = ground arith
  marked_cases (m ∷ ms) ms' s s' e =
      let (same, success, after) = update_cases m ms ms' s s' (unfold mark_delivered in e) in
      (same, inr (ap documents after ∙ updated (undelivered_for u) s success))

  after_read_cases :
      (o : Option (List ChatMessage)) (ms : List ChatMessage) (s s' : State)
      → after_read C u o s ≡ (some ms, s')
      → (ms' : List ChatMessage) × (o ≡ some ms') × (mark_delivered C u ms' s ≡ (some ms, s'))
  unfolding after_read
  after_read_cases none ms s s' e = absurd (ground arith)
  after_read_cases (some ms') ms s s' e = (ms', refl, e)

  pub pull-HasPulled :
      (s : State) (ms : List ChatMessage) (s' : State) → Pulls s ms s' → HasPulled s ms s'
  unfolding pull_undelivered_for_user
  pull-HasPulled s ms s' e =
      let (ms', r, m) = after_read_cases _ ms s s' e in
      let (c, found, whole, d) = read_cases _ ms' r in
      let (rest, perm, limited) =
        find_found (undelivered_for u) natural pull_limit s c found whole in
      let (same, marked) = marked_cases ms' ms s s' m in
      record {
        rest = rest;
        items = c.items;
        read = perm;
        limited = limited;
        decoded = same ∙ d;
        marked = marked;
      }

  pub length-pulled-le :
      (s : State) (ms : List ChatMessage) (s' : State) → Pulls s ms s' → length ms ≤ pull_limit
  length-pulled-le s ms s' e =
      let p = pull-HasPulled s ms s' e in
      omega (arith, ap length p.decoded, length-decode_all-le p.items, p.limited)
