-- ===== src/Go/Keeps.antt =====
-- What a statement keeps, whether it ends or panics: one rule for each way to build a statement.
use go_chat_x.Common.{Bool, true, false, List, [], ◌∷◌, Option, none, some, if◌then◌else◌}
use go_chat_x.Go.{
  Result, done, panic, Go, proceed, pure, panics, gets, modify, when, if_some, for_each, ◌>>=◌,
}

pub record Keeps {ℓ κ} {S A : Type ℓ} (P : S → Type κ) (m : Go S A) : Type (ℓ ⊔ κ) where
  pub at : (s : S) → P s → P (m s).1

module _ {ℓ κ} {S A : Type ℓ} {P : S → Type κ} where
  pub Keeps-gets : (reads : S → A) → Keeps P (gets reads)
  unfolding gets
  Keeps-gets reads = record { at = λ before holds. holds }

  pub Keeps-panics : Keeps P (panics {A = A})
  unfolding panics
  Keeps-panics = record { at = λ before holds. holds }

  pub Keeps-pure : (a : A) → Keeps P (pure a)
  unfolding pure
  Keeps-pure a = record { at = λ before holds. holds }

  pub Keeps-if :
      (test : Bool) (body other : Go S A)
      → Keeps P body
      → Keeps P other
      → Keeps P (if test then body else other)
  Keeps-if true body other in_body in_other = in_body
  Keeps-if false body other in_body in_other = in_other

module _ {ℓ κ} {S A B : Type ℓ} {P : S → Type κ} where
  Keeps-proceed :
      (r : Result A) (f : A → Go S B) → ((a : A) → Keeps P (f a)) → Keeps P (proceed r f)
  Keeps-proceed (done a) f kf = record { at = (kf a).at }
  Keeps-proceed panic f kf = record { at = λ s h. h }

  pub Keeps-bind :
      (first : Go S A) (rest : A → Go S B)
      → Keeps P first
      → ((a : A) → Keeps P (rest a))
      → Keeps P (first >>= rest)
  unfolding ◌>>=◌
  Keeps-bind first rest kept keeps_on = record {
    at = λ before holds.
        (Keeps-proceed (first before).0 rest keeps_on).at (first before).1 (kept.at before holds);
  }

  pub Keeps-if_some :
      (o : Option A) (body : A → Go S B) (other : Go S B)
      → ((a : A) → Keeps P (body a))
      → Keeps P other
      → Keeps P (if_some o body other)
  unfolding if_some
  Keeps-if_some none body other kb ko = ko
  Keeps-if_some (some a) body other kb ko = kb a

module _ {ℓ κ} {S : Type ℓ} {P : S → Type κ} where
  pub Keeps-modify : (f : S → S) → ((s : S) → P s → P (f s)) → Keeps P (modify f)
  unfolding modify
  Keeps-modify f kf = record { at = kf }

  pub Keeps-when : (b : Bool) (m : Go S Unit) → Keeps P m → Keeps P (when b m)
  unfolding when
  Keeps-when b m km = Keeps-if b m (pure tt) km (Keeps-pure tt)

module _ {ℓ κ} {S A : Type ℓ} {P : S → Type κ} where
  pub Keeps-for_each :
      (xs : List A) (body : A → Go S Unit)
      → ((a : A) → Keeps P (body a))
      → Keeps P (for_each xs body)
  unfolding for_each
  Keeps-for_each [] body kb = Keeps-pure tt
  Keeps-for_each (x ∷ xs) body kb = Keeps-bind (body x) _ (kb x) (λ _. Keeps-for_each xs body kb)

pub ruleset keeps_rules = (
  Keeps-pure, Keeps-panics, Keeps-gets, Keeps-if, Keeps-bind, Keeps-if_some, Keeps-when,
  Keeps-for_each,
)
