-- ===== src/Api/Upload/Names.antt =====
-- The names under which Upload saves files.
use Prim.Native.Char.{code}
use Prim.Native.String.{◌++◌, len, ◌∷◌ as ◌⸬◌}
use Prim.Native.Nat.{◌%◌, ◌/◌}
use text.Mathlib.TextLemmas.{nil-append, cons-append, append_assoc}
use text.Mathlib.TextPositions.{len-append}
use go_chat_x.Common.{
  ℕ, zero, suc, ◌<◌, String, ◌≡◌, refl, sym, ap, subst, not, ◌∙◌, inl, inr, Bool, true, false, ◌||◌,
  ◌&&◌, List, [], ◌∷◌, length, eqb, ltb, arith, eq_iff, Bool-cases, ◌==◌, if◌then◌else◌,
}
use go_chat_x.Text.{numeral, digit, itoa_from, itoa}
use go_chat_x.Text.Parts.{ext, ext_from}
use go_chat_x.Middleware.Cors.{lists}
use go_chat_x.Api.Upload.{letters, random_from, random_string, allowed_types, file_name}

-- There is neither a slash nor a dot.
unfoldable pub is_plain : String → Bool
is_plain String.[] = true
is_plain (c ⸬ s) =
    if eqb (code c) b'/' then false else if eqb (code c) b'.' then false else is_plain s

unfoldable pub has_slash : String → Bool
has_slash String.[] = false
has_slash (c ⸬ s) = eqb (code c) b'/' || has_slash s

is_plain-append : (s t : String) → is_plain s ≡ true → is_plain t ≡ true → is_plain (s ++ t) ≡ true
unfolding is_plain
is_plain-append String.[] t ps pt = rw (nil-append t) pt
is_plain-append (c ⸬ s) t ps pt = rw (cons-append c s t) (ground (arith, is_plain-append s t))

has_slash-append : (s t : String) → is_plain s ≡ true → has_slash (s ++ t) ≡ has_slash t
unfolding is_plain has_slash
has_slash-append String.[] t ps = rw (nil-append t) refl
has_slash-append (c ⸬ s) t ps = rw (cons-append c s t) (ground (arith, has_slash-append s t))

ext_from-append :
    (s t found : String) → is_plain s ≡ true → ext_from (s ++ t) found ≡ ext_from t found
unfolding is_plain ext_from
ext_from-append String.[] t found ps = rw (nil-append t) refl
ext_from-append (c ⸬ s) t found ps =
    rw (cons-append c s t) (ground (arith, ext_from-append s t found))

all_of : (String → Bool) → List String → Bool
all_of f [] = true
all_of f (d ∷ ds) = f d && all_of f ds

all_of-numeral :
    (f : String → Bool) (n : ℕ) (ds : List String)
    → n < length ds
    → all_of f ds ≡ true
    → f (numeral n ds) ≡ true
unfolding numeral all_of
all_of-numeral f n [] below all = absurd (omega (arith, below))
all_of-numeral f zero (d ∷ ds) below all = ground (arith, all)
all_of-numeral f (suc n) (d ∷ ds) below all =
    all_of-numeral f n ds (omega (arith, below)) (ground (arith, all))

digit-plain : (n : ℕ) → n < 10 → is_plain (digit n) ≡ true
unfolding digit is_plain all_of
digit-plain n below =
    all_of-numeral is_plain n ("0" ∷ "1" ∷ "2" ∷ "3" ∷ "4" ∷ "5" ∷ "6" ∷ "7" ∷ "8" ∷ "9" ∷ []) below
      refl

letter-plain : (n : ℕ) → is_plain (numeral (n % 36) letters) ≡ true
unfolding is_plain all_of
letter-plain n = all_of-numeral is_plain (n % 36) letters (omega arith) refl

len-letter : (n : ℕ) → len (numeral (n % 36) letters) ≡ 1
unfolding all_of
len-letter n =
    eqb-eq (len (numeral (n % 36) letters))
      (all_of-numeral (λ d. eqb (len d) 1) (n % 36) letters (omega arith) refl)
  where
    eqb-eq : (m : ℕ) → eqb m 1 ≡ true → m ≡ 1
    eqb-eq m e = ground (arith, e)

random_from-plain : (at : ℕ → ℕ) (i n : ℕ) → is_plain (random_from at i n) ≡ true
unfolding random_from is_plain
random_from-plain at i zero = refl
random_from-plain at i (suc n) =
    is_plain-append (numeral (at i % 36) letters) (random_from at (suc i) n) (letter-plain (at i))
      (random_from-plain at (suc i) n)

len-random_from : (at : ℕ → ℕ) (i n : ℕ) → len (random_from at i n) ≡ n
unfolding random_from
len-random_from at i zero = refl
len-random_from at i (suc n) = omega (
  arith,
  len-append (numeral (at i % 36) letters) (random_from at (suc i) n),
  len-letter (at i),
  len-random_from at (suc i) n,
)

itoa_from-plain : (fuel n : ℕ) → is_plain (itoa_from fuel n) ≡ true
unfolding itoa_from is_plain
itoa_from-plain zero n = refl
itoa_from-plain (suc fuel) n = elim (Bool-cases (ltb n 10)) [
  | inl one ↦ rw one (digit-plain n (ground (arith, one)))
  | inr more ↦ rw more (
      is_plain-append (itoa_from fuel (n / 10)) (digit (n % 10)) (itoa_from-plain fuel (n / 10))
        (digit-plain (n % 10) (omega arith)))
]

-- What precedes the extension.
abbrev stem : ℕ → (ℕ → ℕ) → String
stem nanos at = itoa nanos ++ ("_" ++ random_string at 8)

stem-plain : (nanos : ℕ) (at : ℕ → ℕ) → is_plain (stem nanos at) ≡ true
unfolding itoa random_string is_plain
stem-plain nanos at =
    is_plain-append (itoa_from (suc nanos) nanos) ("_" ++ random_from at 0 8)
      (itoa_from-plain (suc nanos) nanos)
      (is_plain-append "_" (random_from at 0 8) refl (random_from-plain at 0 8))

file_name-stem : (nanos : ℕ) (at : ℕ → ℕ) (e : String) → file_name nanos at e ≡ stem nanos at ++ e
unfolding file_name
file_name-stem nanos at e =
    sym (ap (λ s. itoa nanos ++ s) (append_assoc "_" (random_string at 8) e))
    ∙ sym (append_assoc (itoa nanos) ("_" ++ random_string at 8) e)

all_of-lists :
    (f : String → Bool) (e : String) (ds : List String)
    → lists e ds ≡ true
    → all_of f ds ≡ true
    → f e ≡ true
unfolding lists all_of
all_of-lists f e [] listed all = absurd (ground (arith, listed))
all_of-lists f e (d ∷ ds) listed all = elim (Bool-cases (d == e)) [
  | inl same ↦ subst (λ x. f x ≡ true) ((eq_iff d e).0 same) (ground (arith, all))
  | inr other ↦ all_of-lists f e ds (rw other at listed) (ground (arith, all))
]

-- What Ext finds in an extension is the extension.
is_ext : String → Bool
is_ext e = (ext e == e) && not (has_slash e)

allowed-is_ext : (e : String) → lists e allowed_types ≡ true → is_ext e ≡ true
unfolding is_ext all_of ext has_slash ext_from
allowed-is_ext e listed = all_of-lists is_ext e allowed_types listed refl

slash_free : (e : String) → is_ext e ≡ true → has_slash e ≡ false
unfolding is_ext
slash_free e both = ground (arith, both)

same_ext : (e : String) → is_ext e ≡ true → ext e ≡ e
unfolding is_ext
same_ext e both = (eq_iff (ext e) e).0 (ground (arith, both))

ext-append : (s t : String) → is_plain s ≡ true → ext (s ++ t) ≡ ext t
unfolding ext
ext-append s t ps = ext_from-append s t "" ps

-- The name under which an upload is saved has no slash, and its extension is the one that was
-- checked, so that it is one of the allowed types.
pub file_name-ext :
    (nanos : ℕ) (at : ℕ → ℕ) (e : String)
    → lists e allowed_types ≡ true
    → (has_slash (file_name nanos at e) ≡ false) × (ext (file_name nanos at e) ≡ e)
file_name-ext nanos at e listed = rw (file_name-stem nanos at e) (
  has_slash-append (stem nanos at) e (stem-plain nanos at) ∙ slash_free e (allowed-is_ext e listed),
  ext-append (stem nanos at) e (stem-plain nanos at) ∙ same_ext e (allowed-is_ext e listed),
)

-- A random string has the length that was asked for.
pub len-random_string : (nanos_at : ℕ → ℕ) (n : ℕ) → len (random_string nanos_at n) ≡ n
unfolding random_string
len-random_string nanos_at n = len-random_from nanos_at 0 n
