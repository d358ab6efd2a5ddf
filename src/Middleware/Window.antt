-- ===== src/Middleware/Window.antt =====
-- The rate limiter against its specification: the log of the requests that it has judged.
use go_chat_x.Common.{
  ℕ, ◌+◌, ◌≤◌, ◌<◌, String, ◌≡◌, ◌≢◌, refl, sym, ap, ◌∙◌, inl, inr, true, false, some, List, [],
  ◌∷◌, arith, length, ltb, if◌then◌else◌, All, Bool-cases,
}
use go_chat_x.Middleware.Limiter.{
  recent, has, put, Pipeline, card, effect, effects, lifetime, pipeline, SortedSets, Verdict,
  passed, limited, judge, rate_key, limit_key,
}

recent_twice :
    (w now later : ℕ) (ts : List ℕ)
    → now ≤ later
    → recent w later (recent w now ts) ≡ recent w later ts
unfolding recent
recent_twice w now later [] before = refl
recent_twice w now later (t ∷ ts) before = ground (arith, recent_twice w now later ts before)

recent_old :
    (w now later : ℕ) (ts : List ℕ)
    → now + w ≤ later
    → All (λ t. t ≤ now) ts
    → recent w later ts ≡ []
unfolding recent
recent_old w now later [] long old = refl
recent_old w now later (t ∷ ts) long old =
    ground (arith, old.0, recent_old w now later ts long old.1)

has-recent : (w now t : ℕ) (ts : List ℕ) → now < t + w → has t (recent w now ts) ≡ has t ts
unfolding recent has
has-recent w now t [] fresh = refl
has-recent w now t (u ∷ us) fresh = ground (arith, has-recent w now t us fresh)

recent-put :
    (w now t : ℕ) (ts : List ℕ) → now < t + w → recent w now (put t ts) ≡ put t (recent w now ts)
unfolding put recent
recent-put w now t ts fresh = ground (arith, has-recent w now t ts fresh)

pub length-recent-le :
    (w now later : ℕ) (ts : List ℕ)
    → now ≤ later
    → length (recent w later ts) ≤ length (recent w now ts)
unfolding recent
length-recent-le w now later [] before = omega arith
length-recent-le w now later (t ∷ ts) before =
    ground (arith, length-recent-le w now later ts before)

put-All :
    (now t : ℕ) (ts : List ℕ) → t ≤ now → All (λ u. u ≤ now) ts → All (λ u. u ≤ now) (put t ts)
unfolding put
put-All now t ts below old = elim (Bool-cases (has t ts)) [
  | inl there ↦ rw there old
  | inr new ↦ rw new (below, old)
]

-- What Redis has stored keeps agreeing with the instants when one more is added.
window_step :
    (w now later : ℕ) (stored ts : List ℕ)
    → now ≤ later
    → All (λ t. t ≤ now) ts
    → recent w now stored ≡ recent w now ts
    → recent w later (if ltb later (now + w) then put now (recent w now stored) else [])
      ≡ recent w later (put now ts)
window_step w now later stored ts before old e = elim (Bool-cases (ltb later (now + w))) [
  | inl fresh ↦ rw fresh (
      recent-put w later now (recent w now stored) (is_fresh fresh)
      ∙ ap (λ xs. put now (recent w later xs)) e
      ∙ ap (put now) (recent_twice w now later ts before)
      ∙ sym (recent-put w later now ts (is_fresh fresh)))
  | inr gone ↦ rw gone (
      unfold recent in
      sym
        (recent_old w now later (put now ts) (is_old gone) (put-All now now ts (omega arith) old)))
]
  where
    is_fresh : ltb later (now + w) ≡ true → later < now + w
    is_fresh h = ground arith

    is_old : ltb later (now + w) ≡ false → now + w ≤ later
    is_old h = ground arith

-- The requests judged so far, the newest first.
abbrev pub Log : Type 0
Log = List (ℕ × Verdict)

abbrev pub AreBefore : ℕ → Log → Type 0
AreBefore now log = All (λ e. e.0 ≤ now) log

-- The milliseconds at which a request came, each once.
unfoldable pub instants : Log → List ℕ
unfolding put
instants [] = []
instants ((t, _) ∷ log) = put t (instants log)

instants-All : (now : ℕ) (log : Log) → AreBefore now log → All (λ t. t ≤ now) (instants log)
unfolding instants
instants-All now [] before = tt
instants-All now ((t, _) ∷ log) before =
    put-All now t (instants log) before.0 (instants-All now log before.1)

judge_few : (max n : ℕ) → judge max (some n) ≡ (if ltb n max then passed else limited)
unfolding judge
judge_few max n = ground arith

module _ (R : SortedSets) (key : String) (max window : ℕ) where
  open R use {State, members, exec, counted, added, other_keys}

  abbrev pub pipeline_at : ℕ → Pipeline
  pipeline_at now = pipeline (rate_key R key) window now

  -- The commands of the pipeline count what is recent, and add the time of the request.
  pub counted_lem :
      (s s' : State) (now n : ℕ)
      → exec (pipeline_at now) s ≡ (some n, s')
      → n ≡ length (recent window now (members (rate_key R key) now s))
  unfolding pipeline card effect
  counted_lem s s' now n e = counted (pipeline_at now) s s' n e

  added_lem :
      (s s' : State) (now n later : ℕ)
      → exec (pipeline_at now) s ≡ (some n, s')
      → now ≤ later
      → members (rate_key R key) later s' ≡ (
          if ltb later (now + window)
          then put now (recent window now (members (rate_key R key) now s))
          else [])
  unfolding pipeline effects effect lifetime
  added_lem s s' now n later e before = added (pipeline_at now) s s' n later window e before refl

  -- The states that requests of this key and of others lead to, while Redis answers and the clock
  -- does not go back.
  pub data Judged (s₀ : State) : Log → State → Type 0 where
    begin : Judged s₀ [] s₀
    same_key :
        (log : Log) (s s' : State) (now n : ℕ) (v : Verdict)
        → Judged s₀ log s
        → AreBefore now log
        → exec (pipeline_at now) s ≡ (some n, s')
        → judge max (some n) ≡ v
        → Judged s₀ ((now, v) ∷ log) s'
    other_key :
        (log : Log) (s s' : State) (p : Pipeline) (n : ℕ)
        → Judged s₀ log s
        → rate_key R key ≢ p.key
        → exec p s ≡ (some n, s')
        → Judged s₀ log s'

  module _ (s₀ : State) (empty : (now : ℕ) → members (rate_key R key) now s₀ ≡ []) where
    -- Redis holds the instants of the log, as far as they matter.
    pub members-instants :
        (log : Log) (s : State)
        → Judged s₀ log s
        → (now : ℕ) → AreBefore now log
        → recent window now (members (rate_key R key) now s) ≡ recent window now (instants log)
    members-instants log s begin later before = rw (empty later) (unfold instants in refl)
    members-instants _ _ (same_key log s s' now n v j prior e _) later before =
        ap (recent window later) (added_lem s s' now n later e before.0)
        ∙ window_step window now later (members (rate_key R key) now s) (instants log) before.0
            (instants-All now log prior) (members-instants log s j now prior)
        ∙ (unfold instants in refl)
    members-instants _ _ (other_key log s s' p n j other e) later before =
        ap (recent window later) (other_keys p s s' n later (rate_key R key) e other)
        ∙ members-instants log s j later before

    -- From a state without the key, while Redis answers and the clock does not go back, the limiter
    -- lets a request pass exactly when fewer than `max` milliseconds of the last `window` have seen
    -- a request of the same key, passed or not; otherwise it is limited.
    pub limit_key-judge :
        (log : Log) (s s' : State) (now n : ℕ)
        → Judged s₀ log s
        → AreBefore now log
        → exec (pipeline_at now) s ≡ (some n, s')
        → (limit_key R max window now key s).0
          ≡ (if ltb (length (recent window now (instants log))) max then passed else limited)
    unfolding limit_key
    limit_key-judge log s s' now n j before e =
        ap (λ r. judge max r.0) e
        ∙ ap (λ m. judge max (some m))
            (counted_lem s s' now n e ∙ ap length (members-instants log s j now before))
        ∙ judge_few max (length (recent window now (instants log)))
