-- ===== src/Text.antt =====
-- Decimal numerals and message IDs, as fmt.Sprintf writes them.
pub mod Parts
pub mod Reads
use Prim.Native.String.{◌++◌}
use go_chat_x.Common.{
  ℕ, zero, suc, String, List, [], ◌∷◌, if◌then◌else◌, ltb, ◌<◌, ◌≤◌, ◌≡◌, refl, ap, arith, false,
  Bool-cases, inl, inr,
}
use Prim.Native.Nat.{◌/◌, ◌%◌}

unfoldable pub numeral : ℕ → List String → String
numeral n [] = ""
numeral zero (d ∷ ds) = d
numeral (suc n) (d ∷ ds) = numeral n ds

unfoldable pub digit : ℕ → String
unfolding numeral
digit n = numeral n ("0" ∷ "1" ∷ "2" ∷ "3" ∷ "4" ∷ "5" ∷ "6" ∷ "7" ∷ "8" ∷ "9" ∷ [])

-- A number below 10 ^ fuel ends before its fuel.
unfoldable pub itoa_from : ℕ → ℕ → String
unfolding digit
itoa_from zero n = ""
itoa_from (suc fuel) n =
    let higher = itoa_from fuel (n / 10) in if ltb n 10 then digit n else higher ++ digit (n % 10)

-- `%d`
unfoldable pub itoa : ℕ → String
unfolding itoa_from
itoa n = itoa_from (suc n) n

-- `%04d` for a number below 10000
unfoldable pub four_digits : ℕ → String
unfolding digit
four_digits n =
    digit (n / 1000) ++ (digit (n / 100 % 10) ++ (digit (n / 10 % 10) ++ digit (n % 10)))

-- More fuel than the number changes nothing, so that the fuel of `itoa` is enough.
itoa_from_enough : (fuel n : ℕ) → n < fuel → itoa_from (suc fuel) n ≡ itoa_from fuel n
unfolding itoa_from
itoa_from_enough zero n below = absurd (omega arith)
itoa_from_enough (suc fuel) n below = elim (Bool-cases (ltb n 10)) [
  | inl one ↦ rw one refl
  | inr more ↦
      rw more (ap (λ s. s ++ digit (n % 10)) (itoa_from_enough fuel (n / 10) (shorter more)))
]
  where
    at_least : ltb n 10 ≡ false → 10 ≤ n
    at_least more = ground arith

    shorter : ltb n 10 ≡ false → n / 10 < fuel
    shorter more = omega (arith, at_least more)
