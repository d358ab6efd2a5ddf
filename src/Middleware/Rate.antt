-- ===== src/Middleware/Rate.antt =====
-- How many requests the rate limiter lets pass.
use go_chat_x.Common.{
  ℕ, ◌≤◌, ◌<◌, String, ◌≡◌, refl, ap, ◌∙◌, false, some, List, [], ◌∷◌, map, arith, length, All,
}
use go_chat_x.Middleware.Limiter.{recent, has, put, SortedSets, passed, limited, judge, rate_key}
use go_chat_x.Middleware.Window.{
  Log, AreBefore, instants, length-recent-le, pipeline_at, Judged, begin, same_key, other_key,
  members-instants, counted_lem,
}

-- The times of the requests that passed.
unfoldable pub passes : Log → List ℕ
passes [] = []
passes ((t, passed) ∷ log) = t ∷ passes log
passes ((t, limited) ∷ log) = passes log

abbrev pub times : Log → List ℕ
times log = map (λ e. e.0) log

-- Every request came in a later millisecond than the one before.
abbrev pub AreSpread : Log → Type 0
AreSpread [] = Unit
AreSpread ((t, _) ∷ log) = All (λ e. e.0 < t) log × AreSpread log

has-below : (t : ℕ) (ts : List ℕ) → All (λ u. u < t) ts → has t ts ≡ false
unfolding has
has-below t [] below = refl
has-below t (u ∷ us) below = ground (arith, below.0, has-below t us below.1)

times-All : (t : ℕ) (log : Log) → All (λ e. e.0 < t) log → All (λ u. u < t) (times log)
times-All t [] below = tt
times-All t (e ∷ log) below = (below.0, times-All t log below.1)

instants-times : (log : Log) → AreSpread log → instants log ≡ times log
unfolding instants put
instants-times [] spread = refl
instants-times ((t, v) ∷ log) spread =
    ap (put t) (instants-times log spread.1)
    ∙ (rw (has-below t (times log) (times-All t log spread.0)) refl)

length-passes-le :
    (w now : ℕ) (log : Log) → length (recent w now (passes log)) ≤ length (recent w now (times log))
unfolding passes recent
length-passes-le w now [] = omega arith
length-passes-le w now ((t, passed) ∷ log) = ground (arith, length-passes-le w now log)
length-passes-le w now ((t, limited) ∷ log) = ground (arith, length-passes-le w now log)

judge-passed : (max n : ℕ) → judge max (some n) ≡ passed → n < max
unfolding judge
judge-passed max n e = ground arith

module _ (R : SortedSets) (key : String) (max window : ℕ) (s₀ : R.State)
    (empty : (now : ℕ) → R.members (rate_key R key) now s₀ ≡ []) where
  -- A request that passed found fewer than `max` recent ones.
  was_free :
      (log : Log) (s s' : R.State) (now n : ℕ)
      → Judged R key max window s₀ log s
      → AreSpread log
      → AreBefore now log
      → R.exec (pipeline_at R key max window now) s ≡ (some n, s')
      → judge max (some n) ≡ passed
      → length (recent window now (passes log)) < max
  was_free log s s' now n j spread before e v = omega (
    arith,
    judge-passed max n v,
    counted_lem R key max window s s' now n e,
    ap length (members-instants R key max window s₀ empty log s j now before),
    ap (λ ts. length (recent window now ts)) (instants-times log spread),
    length-passes-le window now log,
  )

  -- While Redis answers, and if no two requests of a key come in the same millisecond, then at most
  -- `max` requests of the key pass in any `window` milliseconds.
  pub passes-le-max :
      (log : Log) (s : R.State) (now : ℕ)
      → Judged R key max window s₀ log s
      → AreSpread log
      → AreBefore now log
      → length (recent window now (passes log)) ≤ max
  unfolding passes recent
  passes-le-max _ _ later begin spread before = omega arith
  passes-le-max _ _ later (same_key log s s' now n passed j prior e v) spread before = ground (
    arith,
    was_free log s s' now n j spread.1 prior e v,
    length-recent-le window now later (passes log) before.0,
    passes-le-max log s later j spread.1 before.1,
  )
  passes-le-max _ _ later (same_key log s s' now n limited j prior e v) spread before =
      passes-le-max log s later j spread.1 before.1
  passes-le-max _ _ later (other_key log s s' p n j other e) spread before =
      passes-le-max log s later j spread before
