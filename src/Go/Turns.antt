-- ===== src/Go/Turns.antt =====
-- What a statement turns one property of the state into another by, and statements after it keep.
use go_chat_x.Common.{Bool, true, false, Option, none, some, if◌then◌else◌}
use go_chat_x.Go.{Result, done, panic, Go, proceed, if_some, ◌>>=◌}
use go_chat_x.Go.Keeps.{Keeps}

pub record Turns {ℓ κ} {S A : Type ℓ} (P Q : S → Type κ) (m : Go S A) : Type (ℓ ⊔ κ) where
  pub turns : (s : S) → P s → Q (m s).1

pub Turns-keeps {ℓ κ} : {S A : Type ℓ} {P : S → Type κ} (m : Go S A) → Keeps P m → Turns P P m
Turns-keeps m kept = record { turns = kept.at }

module _ {ℓ κ} {S A B : Type ℓ} {Q : S → Type κ} where
  then_kept :
      (r : Result A) (f : A → Go S B) (s : S)
      → ((a : A) → Keeps Q (f a))
      → Q s
      → Q (proceed r f s).1
  then_kept (done a) f s kf q = (kf a).at s q
  then_kept panic f s kf q = q

module _ {ℓ κ} {S A B : Type ℓ} {P Q : S → Type κ} where
  -- The first statement turns, and the rest of the block keeps, whether it panics or not.
  pub Turns-then :
      (first : Go S A) (rest : A → Go S B)
      → Turns P Q first
      → ((a : A) → Keeps Q (rest a))
      → Turns P Q (first >>= rest)
  unfolding ◌>>=◌
  Turns-then first rest t kept = record {
    turns = λ s p. then_kept (first s).0 rest (first s).1 kept (t.turns s p);
  }

-- A branch, when what it turns the state into is told by the same test.
pub Turns-if {ℓ κ} :
    {S A X : Type ℓ} {P : S → Type κ} (Q : X → S → Type κ) (test : Bool) (x y : X) (m n : Go S A)
    → Turns P (Q x) m
    → Turns P (Q y) n
    → Turns P (Q (if test then x else y)) (if test then m else n)
Turns-if Q true x y m n tm tn = tm
Turns-if Q false x y m n tm tn = tn

pub Turns-if_some {ℓ κ} :
    {S A X : Type ℓ} {P : S → Type κ} (Q : Option X → S → Type κ) (o : Option X) (body : X → Go S A)
    (other : Go S A)
    → ((x : X) → Turns P (Q (some x)) (body x))
    → Turns P (Q none) other
    → Turns P (Q o) (if_some o body other)
unfolding if_some
Turns-if_some Q none body other tb t = t
Turns-if_some Q (some x) body other tb t = tb x
