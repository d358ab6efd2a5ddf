-- ===== src/Middleware/Limiter.antt =====
-- internal/gateway/middleware.go: RateLimiter, IPKey and LoginKey. The sorted sets of Redis are the
-- parameter `SortedSets`; a member is its own score, a time in milliseconds.
use Prim.Native.String.{◌++◌}
use go_chat_x.Common.{
  ℕ, ◌+◌, ◌≤◌, String, ◌≡◌, ◌≢◌, Bool, true, false, Option, none, some, List, [], ◌∷◌, length, ltb,
  leb, eqb, ◌==◌, if◌then◌else◌,
}
use go_chat_x.Text.Parts.{split_commas, trim_space, before_colon}
use go_chat_x.Http.{Request}

-- The times of which `window` has not yet passed.
unfoldable pub recent : (window now : ℕ) → List ℕ → List ℕ
recent window now [] = []
recent window now (t ∷ ts) =
    let rest = recent window now ts in if ltb now (t + window) then t ∷ rest else rest

unfoldable pub has : ℕ → List ℕ → Bool
has t [] = false
has t (u ∷ us) = if eqb u t then true else has t us

-- ZADD, to a set
unfoldable pub put : ℕ → List ℕ → List ℕ
unfolding has
put t ts = if has t ts then ts else t ∷ ts

-- The commands of Limit, on one key: ZREMRANGEBYSCORE from 0 to `now - window`, ZCARD, ZADD of a
-- member with itself for a score, and EXPIRE.
pub data Command : Type 0 where
  zremrangebyscore : (now window : ℕ) → Command
  zcard : Command
  zadd : (score : ℕ) → Command
  expire : (window : ℕ) → Command

-- What a command makes of the members of a key.
unfoldable pub effect : Command → List ℕ → List ℕ
effect (zremrangebyscore now window) ts = recent window now ts
effect (zadd score) ts = put score ts
effect zcard ts = ts
effect (expire window) ts = ts

unfoldable pub effects : List Command → List ℕ → List ℕ
effects [] ts = ts
effects (c ∷ cs) ts = effects cs (effect c ts)

-- What the first ZCARD of a pipeline counts.
unfoldable pub card : List Command → List ℕ → ℕ
card [] ts = 0
card (zcard ∷ cs) ts = length ts
card (c ∷ cs) ts = card cs (effect c ts)

-- The time that the last EXPIRE of a pipeline sets.
unfoldable pub lifetime : List Command → Option ℕ
lifetime [] = none
lifetime (expire window ∷ []) = some window
lifetime (c ∷ cs) = lifetime cs

-- A pipeline that Redis runs at the time `now`.
pub record Pipeline : Type 0 where
  pub key : String
  pub now : ℕ
  pub commands : List Command

pub record SortedSets : Type 1 where
  pub State : Type 0
  -- the members of a key at a time
  pub members : String → (now : ℕ) → State → List ℕ
  -- Exec, and the value of ZCARD; `none` is an error
  pub exec : Pipeline → State → Option ℕ × State
  -- Redis runs the commands one after the other.
  pub counted :
      (p : Pipeline) (s s' : State) (n : ℕ)
      → exec p s ≡ (some n, s')
      → n ≡ card p.commands (members p.key p.now s)
  -- A key with an EXPIRE is there until it expires.
  pub added :
      (p : Pipeline) (s s' : State) (n later window : ℕ)
      → exec p s ≡ (some n, s')
      → p.now ≤ later
      → lifetime p.commands ≡ some window
      → members p.key later s'
        ≡ (if ltb later (p.now + window) then effects p.commands (members p.key p.now s) else [])
  pub other_keys :
      (p : Pipeline) (s s' : State) (n later : ℕ) (key : String)
      → exec p s ≡ (some n, s')
      → key ≢ p.key
      → members key later s' ≡ members key later s

-- pipe, with its four commands
unfoldable pub pipeline : (key : String) → (window now : ℕ) → Pipeline
pipeline key window now = record {
  key = key;
  now = now;
  commands = zremrangebyscore now window ∷ zcard ∷ zadd now ∷ expire window ∷ [];
}

-- What stands before the first comma.
unfoldable pub first_part : List String → String
first_part [] = ""
first_part (p ∷ ps) = p

unfoldable pub without_port : String → Option String → String
without_port addr none = addr
without_port addr (some ip) = ip

unfoldable pub ip_key : Request → String
unfolding first_part without_port
ip_key r =
    if r.forwarded_for == ""
    then (if r.real_ip == ""
        then without_port r.remote_addr (before_colon r.remote_addr)
        else r.real_ip)
    else trim_space (first_part (split_commas r.forwarded_for))

unfoldable pub login_key : Request → String
login_key r = "login:" ++ ip_key r

-- Whether the next handler serves the request, or the limiter answers with status 429.
pub data Verdict : Type 0 where
  passed : Verdict
  limited : Verdict

-- After the pipeline; an error lets the request pass.
unfoldable pub judge : (max : ℕ) → Option ℕ → Verdict
judge max none = passed
judge max (some n) = if leb max n then limited else passed

module _ (R : SortedSets) where
  open R use {State, exec}

  abbrev pub rate_key : String → String
  rate_key key = "ratelimit:" ++ key

  unfoldable pub limit_key : (max window now : ℕ) (key : String) → State → Verdict × State
  limit_key max window now key s =
      let (n, s') = exec (pipeline (rate_key key) window now) s in (judge max n, s')

  unfoldable pub limit :
      (has_redis : Bool) (key_of : Request → String) (max window now : ℕ)
      → Request
      → State
      → Verdict × State
  limit has_redis key_of max window now r s =
      if has_redis
      then if key_of r == "" then (passed, s) else limit_key max window now (key_of r) s
      else (passed, s)
