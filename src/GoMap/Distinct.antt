-- ===== src/GoMap/Distinct.antt =====
-- No key stands twice in a map, whatever is put in and taken out.
use go_chat_x.Common.{
  String, ◌≢◌, List, [], ◌∷◌, ◌==◌, eq_iff, All, All-map, Bool-cases, arith, inl, inr,
}
use go_chat_x.GoMap.{GoMap, insert, delete, keys}

-- No entry of a list is repeated.
abbrev pub Distinct {ℓ} : {A : Type ℓ} → List A → Type ℓ
Distinct [] = Unit
Distinct (x ∷ xs) = All (λ y. x ≢ y) xs × Distinct xs

module _ {ℓ} {V : Type ℓ} where
  keys-insert-All :
      (k j : String) (v : V) (m : GoMap V)
      → j ≢ k
      → All (λ y. j ≢ y) (keys m)
      → All (λ y. j ≢ y) (keys (insert k v m))
  unfolding insert keys
  keys-insert-All k j v [] other a = (other, tt)
  keys-insert-All k j v ((i, w) ∷ m) other a = elim (Bool-cases (i == k)) [
    | inl same ↦ rw (same, insert) (other, a.1)
    | inr differs ↦ rw (differs, insert) (a.0, keys-insert-All k j v m other a.1)
  ]

  pub keys-insert-Distinct :
      (k : String) (v : V) (m : GoMap V) → Distinct (keys m) → Distinct (keys (insert k v m))
  unfolding insert keys
  keys-insert-Distinct k v [] d = (tt, tt)
  keys-insert-Distinct k v ((i, w) ∷ m) d = elim (Bool-cases (i == k)) [
    | inl same ↦
        rw (same, insert)
          (
            All-map (λ y. i ≢ y) (λ y. k ≢ y) (λ y n e. n (ground (arith, eq_iff i k))) (keys m)
                d.0,
            d.1,
          )
    | inr differs ↦
        rw (differs, insert)
          (
            keys-insert-All k i v m (λ e. ground (arith, eq_iff i k)) d.0,
            keys-insert-Distinct k v m d.1,
          )
  ]

  keys-delete-All :
      (k j : String) (m : GoMap V)
      → All (λ y. j ≢ y) (keys m)
      → All (λ y. j ≢ y) (keys (delete k m))
  unfolding delete keys
  keys-delete-All k j [] a = tt
  keys-delete-All k j ((i, w) ∷ m) a = elim (Bool-cases (i == k)) [
    | inl same ↦ rw (same, delete) (keys-delete-All k j m a.1)
    | inr differs ↦ rw (differs, delete) (a.0, keys-delete-All k j m a.1)
  ]

  pub keys-delete-Distinct :
      (k : String) (m : GoMap V) → Distinct (keys m) → Distinct (keys (delete k m))
  unfolding delete keys
  keys-delete-Distinct k [] d = tt
  keys-delete-Distinct k ((i, w) ∷ m) d = elim (Bool-cases (i == k)) [
    | inl same ↦ rw (same, delete) (keys-delete-Distinct k m d.1)
    | inr differs ↦ rw (differs, delete) (keys-delete-All k i m d.0, keys-delete-Distinct k m d.1)
  ]
