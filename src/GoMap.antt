-- ===== src/GoMap.antt =====
-- Go's `map[string]V`, which the gateway keeps its users, its rooms and their members in. The
-- entries stand in one of the orders in which `range` may visit them.
pub mod Laws
pub mod Distinct
use go_chat_x.Common.{
  String, Option, none, some, List, [], ◌∷◌, Bool, true, false, map, ◌==◌, if◌then◌else◌,
}

abbrev pub GoMap {ℓ} : Type ℓ → Type ℓ
GoMap V = List (String × V)

module _ {ℓ} {V : Type ℓ} where
  -- `v, ok := m[k]`; for a map to pointers `none` is nil.
  unfoldable pub lookup : (key : String) → GoMap V → Option V
  lookup key [] = none
  lookup key (entry ∷ rest) = if entry.0 == key then some entry.1 else lookup key rest

  -- `m[k] = v`, in the place of the entry of `k` if there is one
  unfoldable pub insert : (key : String) (value : V) → GoMap V → GoMap V
  insert key value [] = (key, value) ∷ []
  insert key value (entry ∷ rest) =
      let after = insert key value rest in
      if entry.0 == key then (key, value) ∷ rest else entry ∷ after

  -- `delete(m, k)`
  unfoldable pub delete : (key : String) → GoMap V → GoMap V
  delete key [] = []
  delete key (entry ∷ rest) =
      let after = delete key rest in if entry.0 == key then after else entry ∷ after

  -- `for k := range m`
  unfoldable pub keys : GoMap V → List String
  keys [] = []
  keys ((k, v) ∷ m) = k ∷ keys m

  unfoldable pub contains : String → GoMap V → Bool
  contains k m = elim (lookup k m) [ none ↦ false | some _ ↦ true ]
