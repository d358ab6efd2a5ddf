-- ===== src/Go.antt =====
-- Go statements that change shared state and may panic: by a send on a closed channel, or by a
-- method of a nil *sql.DB. What was written before a panic stays written, since net/http recovers a
-- panic of a handler and the process goes on.
pub mod Keeps
pub mod Ends
pub mod Turns
use go_chat_x.Common.{◌≡◌, refl, ◌∙◌, Bool, List, [], ◌∷◌, Option, none, some, if◌then◌else◌, true}

pub data Result {ℓ} (A : Type ℓ) : Type ℓ where
  done : A → Result A
  panic : Result A

abbrev pub Go {ℓ} : Type ℓ → Type ℓ → Type ℓ
Go S A = S → Result A × S

module _ {ℓ} {S A B : Type ℓ} where
  abbrev pub proceed : Result A → (A → Go S B) → Go S B
  proceed (done a) f s = f a s
  proceed panic f s = (panic, s)

  infixl 10 ◌>>=◌
  unfoldable pub ◌>>=◌ : Go S A → (A → Go S B) → Go S B
  ◌>>=◌ m f s = let (r, s') = m s in proceed r f s'

module _ {ℓ} {S A : Type ℓ} where
  unfoldable pub pure : A → Go S A
  pure a s = (done a, s)

  unfoldable pub panics : Go S A
  panics s = (panic, s)

  unfoldable pub gets : (S → A) → Go S A
  gets f s = (done (f s), s)

module _ {ℓ} {S A B : Type ℓ} where
  -- `if p := …; p != nil { body } else { other }`
  unfoldable pub if_some : Option A → (A → Go S B) → Go S B → Go S B
  if_some none body other = other
  if_some (some a) body other = body a

infixl 10 ◌>>◌
abbrev pub ◌>>◌ {ℓ} : {S B : Type ℓ} → Go S Unit → Go S B → Go S B
m >> n = m >>= λ _. n

unfoldable pub modify {ℓ} : {S : Type ℓ} → (S → S) → Go S Unit
modify f s = (done tt, f s)

-- `if test { body }`
unfoldable pub when {ℓ} : {S : Type ℓ} → Bool → Go S Unit → Go S Unit
when test body = if test then body else pure tt

-- `for _, x := range xs { body }`
unfoldable pub for_each {ℓ} : {S A : Type ℓ} → List A → (A → Go S Unit) → Go S Unit
for_each [] body = pure tt
for_each (x ∷ xs) body = body x >> for_each xs body

-- The rest of a block runs from where its first statement ends.
pub bind_done {ℓ} :
    {S A B : Type ℓ} (m : Go S A) (f : A → Go S B) (s s' : S) (a : A)
    → m s ≡ (done a, s')
    → (m >>= f) s ≡ f a s'
unfolding ◌>>=◌
bind_done m f s s' a e = rw e refl

-- Two statements, one after the other.
pub bind_then {ℓ} :
    {S B : Type ℓ} (m : Go S Unit) (n : Go S B) {s s' : S} {r : Result B × S}
    → m s ≡ (done tt, s')
    → n s' ≡ r
    → (m >> n) s ≡ r
bind_then m n {s} {s'} e f = bind_done m (λ _. n) s s' tt e ∙ f

pub bind_panic {ℓ} :
    {S A B : Type ℓ} (m : Go S A) (f : A → Go S B) (s s' : S)
    → m s ≡ (panic, s')
    → (m >>= f) s ≡ (panic, s')
unfolding ◌>>=◌
bind_panic m f s s' e = rw e refl

pub if_some-none :
    {S A B : Type 0} (o : Option A) (body : A → Go S B) (other : Go S B)
    → o ≡ none
    → if_some o body other ≡ other
unfolding if_some
if_some-none none body other e = refl
if_some-none (some a) body other e = cc

pub if_some-some :
    {S A B : Type 0} (o : Option A) (body : A → Go S B) (other : Go S B) (a : A)
    → o ≡ some a
    → if_some o body other ≡ body a
unfolding if_some
if_some-some o body other a e = rw e refl

pub when-true : {S : Type 0} (test : Bool) (body : Go S Unit) → test ≡ true → when test body ≡ body
unfolding when
when-true test body e = rw e refl
