-- ===== src/Text/Parts.antt =====
-- What the gateway uses of Go's packages strings and path/filepath.
use Prim.Native.Char.{Char, code}
use Prim.Native.String.{◌∷◌ as ◌⸬◌}
use go_chat_x.Common.{
  String, Bool, ◌||◌, ◌&&◌, ◌≡◌, refl, Option, none, some, List, [], ◌∷◌, leb, eqb, if◌then◌else◌,
}

-- unicode.IsSpace
unfoldable pub is_space : Char → Bool
is_space c =
    (leb 9 (code c) && leb (code c) 13)
    || eqb (code c) 32
    || eqb (code c) 133
    || eqb (code c) 160
    || eqb (code c) 5760
    || (leb 8192 (code c) && leb (code c) 8202)
    || eqb (code c) 8232
    || eqb (code c) 8233
    || eqb (code c) 8239
    || eqb (code c) 8287
    || eqb (code c) 12288

unfoldable pub trim_left : String → String
unfolding is_space
trim_left String.[] = ""
trim_left (c ⸬ s) = let rest = trim_left s in if is_space c then rest else c ⸬ s

-- A text whose end is trimmed, one character longer at its start.
unfoldable pub keep_char : Char → String → String
unfolding is_space
keep_char c String.[] = if is_space c then "" else c ⸬ ""
keep_char c (d ⸬ s) = c ⸬ d ⸬ s

unfoldable pub trim_right : String → String
unfolding keep_char
trim_right String.[] = ""
trim_right (c ⸬ s) = keep_char c (trim_right s)

-- strings.TrimSpace
unfoldable pub trim_space : String → String
unfolding trim_left trim_right
trim_space s = trim_right (trim_left s)

unfoldable pub attach : Char → List String → List String
attach c [] = (c ⸬ "") ∷ []
attach c (p ∷ ps) = (c ⸬ p) ∷ ps

-- strings.Split(s, ",")
unfoldable pub split_commas : String → List String
unfolding attach
split_commas String.[] = "" ∷ []
split_commas (c ⸬ s) =
    let rest = split_commas s in if eqb (code c) b',' then "" ∷ rest else attach c rest

-- What stands before the last ":", if there is one.
unfoldable pub before_colon : String → Option String
before_colon String.[] = none
before_colon (c ⸬ s) = elim (before_colon s) [
  | none ↦ if eqb (code c) b':' then some "" else none
  | some before ↦ some (c ⸬ before)
]

-- filepath.Ext: from the last dot of the last element of the path; `found` is what has been found.
unfoldable pub ext_from : String → (found : String) → String
ext_from String.[] found = found
ext_from (c ⸬ s) found =
    ext_from s (if eqb (code c) b'/' then "" else if eqb (code c) b'.' then c ⸬ s else found)

unfoldable pub ext : String → String
unfolding ext_from
ext path = ext_from path ""

-- strings.ToLower, for unicode.ToLower
unfoldable pub to_lower : (Char → Char) → String → String
to_lower lower String.[] = ""
to_lower lower (c ⸬ s) = lower c ⸬ to_lower lower s

splits : split_commas "a, b,," ≡ "a" ∷ " b" ∷ "" ∷ "" ∷ []
unfolding split_commas
splits = refl
