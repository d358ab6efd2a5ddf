-- ===== src/Go/Ends.antt =====
-- Total correctness: from a state of `P` the statement ends without a panic, with a result and a
-- state of `Q`. One rule for each way to build a statement.
use go_chat_x.Common.{
  ◌≡◌, refl, ap, Bool, true, false, List, [], ◌∷◌, Option, none, some, if◌then◌else◌, All,
}
use go_chat_x.Go.{
  Result, done, panic, Go, proceed, pure, gets, modify, when, if_some, for_each, ◌>>=◌,
}

pub record Ends {ℓ} {S A : Type ℓ} (P : S → Type ℓ) (m : Go S A) (Q : A → S → Type ℓ) : Type ℓ where
  pub at : (s : S) → P s → (a : A) × ((m s).0 ≡ done a) × Q a (m s).1

module _ {ℓ} {S A : Type ℓ} {P : S → Type ℓ} {Q : A → S → Type ℓ} where
  pub Ends-pure : (a : A) → ((s : S) → P s → Q a s) → Ends P (pure a) Q
  unfolding pure
  Ends-pure a h = record { at = λ s p. (a, refl, h s p) }

  pub Ends-gets : (f : S → A) → ((s : S) → P s → Q (f s) s) → Ends P (gets f) Q
  unfolding gets
  Ends-gets f h = record { at = λ s p. (f s, refl, h s p) }

  pub Ends-if :
      (b : Bool) (m n : Go S A)
      → (b ≡ true → Ends P m Q)
      → (b ≡ false → Ends P n Q)
      → Ends P (if b then m else n) Q
  Ends-if true m n em en = em refl
  Ends-if false m n em en = en refl

  pub Ends-weaken :
      (P' : S → Type ℓ) (m : Go S A) → ((s : S) → P' s → P s) → Ends P m Q → Ends P' m Q
  Ends-weaken P' m weaker e = record { at = λ s p. e.at s (weaker s p) }

module _ {ℓ} {S A B : Type ℓ} where
  proceed_lem : (r : Result A) (f : A → Go S B) (s : S) (a : A) → r ≡ done a → proceed r f s ≡ f a s
  proceed_lem (done x) f s a e = cc
  proceed_lem panic f s a e = cc

module _ {ℓ} {S A : Type ℓ} where
  -- A statement whose result and state are known.
  pub ends_in :
      {P : S → Type ℓ} (Q : A → S → Type ℓ) (m : Go S A) (f : S → A) (g : S → S)
      → ((s : S) → P s → (m s ≡ (done (f s), g s)) × Q (f s) (g s))
      → Ends P m Q
  ends_in Q m f g h = record { at = λ s p. let (e, q) = h s p in (f s, ap (λ r. r.0) e, rw e q) }

module _ {ℓ} {S A B : Type ℓ} {P : S → Type ℓ} {Q : B → S → Type ℓ} where
  pub Ends-bind :
      (R : A → S → Type ℓ) (m : Go S A) (f : A → Go S B)
      → Ends P m R
      → ((a : A) → Ends (R a) (f a) Q)
      → Ends P (m >>= f) Q
  unfolding ◌>>=◌
  Ends-bind R m f em ef = record {
    at = λ s p.
        let (a, e, q) = em.at s p in rw (proceed_lem (m s).0 f (m s).1 a e) ((ef a).at (m s).1 q);
  }

  pub Ends-if_some :
      (o : Option A) (body : A → Go S B) (other : Go S B)
      → ((a : A) → o ≡ some a → Ends P (body a) Q)
      → (o ≡ none → Ends P other Q)
      → Ends P (if_some o body other) Q
  unfolding if_some
  Ends-if_some none body other eb eo = eo refl
  Ends-if_some (some a) body other eb eo = eb a refl

module _ {ℓ} {S : Type ℓ} {P : S → Type ℓ} where
  pub Ends-modify :
      (Q : Unit → S → Type ℓ) (f : S → S) → ((s : S) → P s → Q tt (f s)) → Ends P (modify f) Q
  unfolding modify
  Ends-modify Q f h = record { at = λ s p. (tt, refl, h s p) }

  pub Ends-when : (b : Bool) (m : Go S Unit) → Ends P m (λ _. P) → Ends P (when b m) (λ _. P)
  unfolding when
  Ends-when b m em = Ends-if b m (pure tt) (λ _. em) (λ _. Ends-pure tt (λ s p. p))

module _ {ℓ} {S A : Type ℓ} {P : S → Type ℓ} (L : A → Type ℓ) where
  pub Ends-for_each :
      (xs : List A) (body : A → Go S Unit)
      → All L xs
      → ((a : A) → L a → Ends P (body a) (λ _. P))
      → Ends P (for_each xs body) (λ _. P)
  unfolding for_each
  Ends-for_each [] body all eb = Ends-pure tt (λ s p. p)
  Ends-for_each (x ∷ xs) body (l, all) eb =
      Ends-bind (λ _. P) (body x) _ (eb x l) (λ _. Ends-for_each xs body all eb)
