-- ===== src/Text/Reads.antt =====
-- What a decimal numeral says, read back from the start of a text.
use Prim.Native.Char.{Char, code, len_utf8}
use Prim.Native.String.len
use Prim.Native.String.{◌++◌, len, ◌∷◌ as ◌⸬◌}
use Prim.Native.Nat.{◌/◌, ◌%◌}
use text.Mathlib.TextLemmas.{
  nil-append, cons-append, append-nil, append_assoc, head-eq_of_cons-eq, tail-eq_of_cons-eq,
}
use text.Mathlib.TextPositions.{len-append, len_utf8-pos}
use go_chat_x.Common.{
  ℕ, zero, suc, ◌+◌, ◌-◌, ◌*◌, ◌<◌, String, Bool, true, false, ◌&&◌, ◌≡◌, refl, sym, ap, ◌∙◌, inl,
  inr, arith, ltb, leb, Bool-cases, if◌then◌else◌,
}
use go_chat_x.Text.{numeral, digit, itoa_from, itoa, four_digits}

pub is_digit : Char → Bool
is_digit c = leb b'0' (code c) && leb (code c) b'9'

-- The number that a text starts with, after the digits `acc` have been read, and the rest.
pub read : ℕ → String → ℕ × String
read acc String.[] = (acc, "")
read acc (c ⸬ s) =
    let more = read (acc * 10 + (code c - b'0')) s in if is_digit c then more else (acc, c ⸬ s)

read-char :
    (acc : ℕ) (c : Char) (s : String)
    → is_digit c ≡ true
    → read acc ((c ⸬ "") ++ s) ≡ read (acc * 10 + (code c - b'0')) s
unfolding read
read-char acc c s e = rw (cons-append c "" s, nil-append s, e) refl

read-digit : (acc d : ℕ) (s : String) → d < 10 → read acc (digit d ++ s) ≡ read (acc * 10 + d) s
unfolding digit numeral is_digit
read-digit acc zero s h = read-char acc "0" s refl
read-digit acc (suc zero) s h = read-char acc "1" s refl
read-digit acc (suc (suc zero)) s h = read-char acc "2" s refl
read-digit acc (suc (suc (suc zero))) s h = read-char acc "3" s refl
read-digit acc (suc (suc (suc (suc zero)))) s h = read-char acc "4" s refl
read-digit acc (suc (suc (suc (suc (suc zero))))) s h = read-char acc "5" s refl
read-digit acc (suc (suc (suc (suc (suc (suc zero)))))) s h = read-char acc "6" s refl
read-digit acc (suc (suc (suc (suc (suc (suc (suc zero))))))) s h = read-char acc "7" s refl
read-digit acc (suc (suc (suc (suc (suc (suc (suc (suc zero)))))))) s h = read-char acc "8" s refl
read-digit acc (suc (suc (suc (suc (suc (suc (suc (suc (suc zero))))))))) s h =
    read-char acc "9" s refl
read-digit acc (suc (suc (suc (suc (suc (suc (suc (suc (suc (suc d)))))))))) s h =
    absurd (omega arith)

-- A numeral with enough fuel is read back.
read-itoa_from : (fuel n : ℕ) (s : String) → n < fuel → read 0 (itoa_from fuel n ++ s) ≡ read n s
unfolding itoa_from
read-itoa_from zero n s h = absurd (omega arith)
read-itoa_from (suc fuel) n s h = elim (Bool-cases (ltb n 10)) [
  | inl one ↦ rw one (read-digit 0 n s (below one) ∙ ap (λ m. read m s) (omega arith))
  | inr more ↦
      rw (more, append_assoc (itoa_from fuel (n / 10)) (digit (n % 10)) s)
        (read-itoa_from fuel (n / 10) (digit (n % 10) ++ s) (shorter more)
          ∙ read-digit (n / 10) (n % 10) s (omega arith)
          ∙ ap (λ m. read m s) (omega arith))
]
  where
    below : ltb n 10 ≡ true → n < 10
    below e = ground arith

    shorter : ltb n 10 ≡ false → n / 10 < fuel
    shorter e = ground (arith, h)

read-empty : (n : ℕ) → read n "" ≡ (n, "")
unfolding read
read-empty n = refl

-- What stands before an underscore is read, and no more.
read-underscore : (n : ℕ) (s : String) → read n ("_" ++ s) ≡ (n, "_" ++ s)
unfolding read is_digit
read-underscore n s = rw (cons-append "_" "" s, nil-append s) refl

pub read-itoa : (n : ℕ) (s : String) → read 0 (itoa n ++ ("_" ++ s)) ≡ (n, "_" ++ s)
unfolding itoa
read-itoa n s = read-itoa_from (suc n) n ("_" ++ s) (omega arith) ∙ read-underscore n s

step_digit :
    (acc d k : ℕ) (s : String) → d < 10 → acc * 10 + d ≡ k → read acc (digit d ++ s) ≡ read k s
step_digit acc d k s h e = read-digit acc d s h ∙ ap (λ m. read m s) e

-- `%04d` is read back.
pub read-four_digits : (n : ℕ) → n < 10000 → read 0 (four_digits n) ≡ (n, "")
unfolding four_digits
read-four_digits n h = rw (append-nil (digit (n % 10))) at (
    step_digit 0 (n / 1000) (n / 1000) _ (omega arith) (omega arith)
    ∙ step_digit (n / 1000) (n / 100 % 10) (n / 100) _ (omega arith) (omega arith)
    ∙ step_digit (n / 100) (n / 10 % 10) (n / 10) _ (omega arith) (omega arith)
    ∙ step_digit (n / 10) (n % 10) n "" (omega arith) (omega arith)
    ∙ read-empty n)

len-cons-pos : (c : Char) (s : String) → 0 < len (c ⸬ s)
len-cons-pos c s =
    let w : len (c ⸬ s) ≡ len_utf8 c + len s = len.cons c s in omega (arith, w, (len_utf8-pos c).1)

-- Texts whose ends have one length are equal only where their ends are.
pub append_inj_of_len : (s t u v : String) → len u ≡ len v → s ++ u ≡ t ++ v → (s ≡ t) × (u ≡ v)
append_inj_of_len String.[] String.[] u v l e = (refl, sym (nil-append u) ∙ e ∙ nil-append v)
append_inj_of_len String.[] (d ⸬ t) u v l e = absurd (
    omega (
      arith,
      ap len e,
      l,
      len-append "" u,
      len-append (d ⸬ t) v,
      len-cons-pos d t,
      len-append "" u,
    ))
append_inj_of_len (c ⸬ s) String.[] u v l e =
    absurd (omega (arith, ap len e, l, len-append (c ⸬ s) u, len-append "" v, len-cons-pos c s))
append_inj_of_len (c ⸬ s) (d ⸬ t) u v l e =
    let e' = sym (cons-append c s u) ∙ e ∙ cons-append d t v in
    let (st, uv) = append_inj_of_len s t u v l (tail-eq_of_cons-eq e') in
    ((λ i. head-eq_of_cons-eq e' i ⸬ st i), uv)

len-digit : (d : ℕ) → d < 10 → len (digit d) ≡ 1
unfolding digit numeral
len-digit zero h = refl
len-digit (suc zero) h = refl
len-digit (suc (suc zero)) h = refl
len-digit (suc (suc (suc zero))) h = refl
len-digit (suc (suc (suc (suc zero)))) h = refl
len-digit (suc (suc (suc (suc (suc zero))))) h = refl
len-digit (suc (suc (suc (suc (suc (suc zero)))))) h = refl
len-digit (suc (suc (suc (suc (suc (suc (suc zero))))))) h = refl
len-digit (suc (suc (suc (suc (suc (suc (suc (suc zero)))))))) h = refl
len-digit (suc (suc (suc (suc (suc (suc (suc (suc (suc zero))))))))) h = refl
len-digit (suc (suc (suc (suc (suc (suc (suc (suc (suc (suc d)))))))))) h = absurd (omega arith)

pub len-four_digits : (n : ℕ) → n < 10000 → len (four_digits n) ≡ 4
unfolding four_digits
len-four_digits n h = omega (
  arith,
  len-append (digit (n / 1000)) (digit (n / 100 % 10) ++ (digit (n / 10 % 10) ++ digit (n % 10))),
  len-append (digit (n / 100 % 10)) (digit (n / 10 % 10) ++ digit (n % 10)),
  len-append (digit (n / 10 % 10)) (digit (n % 10)),
  len-digit (n / 1000) (omega arith),
  len-digit (n / 100 % 10) (omega arith),
  len-digit (n / 10 % 10) (omega arith),
  len-digit (n % 10) (omega arith),
)
