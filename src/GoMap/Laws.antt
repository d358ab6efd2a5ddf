-- ===== src/GoMap/Laws.antt =====
-- What the operations of a map promise: the laws of look-up, and keys without repetition.
use go_chat_x.Common.{
  String, ◌≡◌, refl, subst, ◌≢◌, inl, inr, none, some, [], ◌∷◌, arith, ◌==◌, eq_iff, eq_refl,
  if◌then◌else◌, All, true, false, Bool-cases,
}
use go_chat_x.GoMap.{GoMap, lookup, insert, delete}

module _ {ℓ} {V : Type ℓ} where
  pub lookup-insert :
      (key other : String) (value : V) (m : GoMap V)
      → lookup other (insert key value m) ≡ (if key == other then some value else lookup other m)
  unfolding lookup insert
  lookup-insert key other value [] = refl
  lookup-insert key other value (entry ∷ rest) = ground (
    arith,
    lookup-insert key other value rest,
    eq_iff entry.0 key,
    eq_iff key other,
    eq_iff entry.0 other,
  )

  pub lookup-delete :
      (k j : String) (m : GoMap V) → lookup j (delete k m) ≡ (if k == j then none else lookup j m)
  unfolding lookup delete
  lookup-delete k j [] = ground arith
  lookup-delete k j ((i, v) ∷ m) =
      ground (arith, lookup-delete k j m, eq_iff i k, eq_iff i j, eq_iff k j)

  pub lookup-insert_self : (k : String) (v : V) (m : GoMap V) → lookup k (insert k v m) ≡ some v
  lookup-insert_self k v m = simp (lookup-insert, eq_refl)

  pub lookup-delete_self : (k : String) (m : GoMap V) → lookup k (delete k m) ≡ none
  lookup-delete_self k m = simp (lookup-delete, eq_refl)

  -- No entry is found in any key of the empty map, and only of it.
  pub empty_of_lookup : (m : GoMap V) → ((k : String) → lookup k m ≡ none) → m ≡ []
  unfolding lookup
  empty_of_lookup [] h = refl
  empty_of_lookup ((k, v) ∷ m) h = ground (arith, h k, eq_refl k)

  pub lookup-nil : (k : String) → lookup {V = V} k [] ≡ none
  unfolding lookup
  lookup-nil k = refl

module _ {ℓ κ} {V : Type ℓ} (P : String × V → Type κ) where
  pub All-insert : (k : String) (v : V) (m : GoMap V) → P (k, v) → All P m → All P (insert k v m)
  unfolding insert
  All-insert k v [] p h = (p, tt)
  All-insert k v ((j, w) ∷ m) p h = elim (Bool-cases (j == k)) [
    | inl same ↦ rw (same, insert) (p, h.1)
    | inr other ↦ rw (other, insert) (h.0, All-insert k v m p h.1)
  ]

  pub All-delete : (k : String) (m : GoMap V) → All P m → All P (delete k m)
  unfolding delete
  All-delete k [] h = tt
  All-delete k ((j, w) ∷ m) h = elim (Bool-cases (j == k)) [
    | inl same ↦ rw (same, delete) (All-delete k m h.1)
    | inr other ↦ rw (other, delete) (h.0, All-delete k m h.1)
  ]

  pub All-lookup :
      (k : String) (v : V) (m : GoMap V) → lookup k m ≡ some v → All P m → (j : String) × P (j, v)
  unfolding lookup
  All-lookup k v [] e h = absurd (none-ne-some e)
    where
      none-ne-some : none ≡ some v → ⊥
      none-ne-some e = cc
  All-lookup k v ((j, w) ∷ m) e h = elim (Bool-cases (j == k)) [
    | inl same ↦ (j, subst (λ x. P (j, x)) (ground arith) h.0)
    | inr other ↦ All-lookup k v m (ground arith) h.1
  ]

  -- No entry stands under a key that is not found.
  pub All-absent :
      (k : String) (m : GoMap V) → lookup k m ≡ none → All P m → All (λ e. P e × (e.0 ≢ k)) m
  unfolding lookup
  All-absent k [] e h = tt
  All-absent k ((j, w) ∷ m) e h = elim (Bool-cases (j == k)) [
    | inl same ↦ absurd (some-ne-none (rw (same, lookup) at e))
    | inr other ↦ (
      (h.0, λ same. differ (rw (same, eq_refl k) at other)),
      All-absent k m (rw (other, lookup) at e) h.1,
    )
  ]
    where
      some-ne-none : some w ≡ none → ⊥
      some-ne-none e = cc

      differ : true ≡ false → ⊥
      differ e = cc

pub ruleset map_laws = (lookup-insert, lookup-delete, lookup-nil)
