-- ===== src/Storage/Delivery.antt =====
-- What PullUndeliveredForUser promises to a user who logs in, and what it loses.
use mathlib.Core.List.{Perm, append-nil}
use mathlib.Core.List.Perm
use go_chat_x.Common.{
  ◌≤◌, ◌<◌, String, ◌≡◌, ◌≢◌, ap, subst, ◌∙◌, ◌⊎◌, inl, inr, List, [], ◌++◌, map, arith, length,
  length-append,
}
use go_chat_x.Message.{ChatMessage}
use go_chat_x.Storage.Documents.{Document, select, Collection, mark}
use go_chat_x.Storage.{decode_all, undelivered_for, pull_limit}
use go_chat_x.Storage.Pull.{
  Pulls, HasPulled, pull-HasPulled, select-mark, select-mark_ne, perm-length, decode,
  decode_all-filter_map, nil_of_length, length-decode_all-le,
}

module _ (C : Collection) (u : String) where
  open C use {State, documents}

  -- The documents that wait for the user.
  abbrev pub waiting : State → List Document
  waiting s = select (undelivered_for u) (documents s)

  no_more :
      (s : State) (ms : List ChatMessage) (s' : State)
      → HasPulled C u s ms s'
      → waiting s ≡ []
      → ms ≡ []
  unfolding decode_all
  no_more s ms s' p e =
      p.decoded ∙ ap decode_all (nil_of_length p.items (ground (arith, p.limited)))

  -- A call that returns messages leaves none waiting for the user, and returns at most 200.
  pub pull-settles :
      (s : State) (ms : List ChatMessage) (s' : State)
      → Pulls C u s ms s'
      → ms ≢ []
      → (waiting s' ≡ []) × (length ms ≤ pull_limit)
  pull-settles s ms s' e some_found =
      let p = pull-HasPulled C u s ms s' e in
      (
        settled p.marked,
        omega (arith, ap length p.decoded, length-decode_all-le p.items, p.limited),
      )
    where
      settled :
          (ms ≡ []) × (s' ≡ s) ⊎ (documents s' ≡ map (mark (undelivered_for u)) (documents s))
          → waiting s' ≡ []
      settled (inl (empty, _)) = absurd (some_found empty)
      settled (inr marked) = ap (select (undelivered_for u)) marked ∙ select-mark u (documents s)

  -- No message is handed out twice: if a call that returned messages is followed at once by
  -- another one that succeeds, that one returns none.
  pub pull_twice :
      (s : State) (ms : List ChatMessage) (s' : State) (ms' : List ChatMessage) (s'' : State)
      → Pulls C u s ms s'
      → ms ≢ []
      → Pulls C u s' ms' s''
      → ms' ≡ []
  pull_twice s ms s' ms' s'' e some_found e' =
      no_more s' ms' s'' (pull-HasPulled C u s' ms' s'' e') (pull-settles s ms s' e some_found).0

  -- If no more than 200 messages wait, a call that succeeds returns exactly those that decode, in
  -- some order.
  pub pull-perm :
      (s : State) (ms : List ChatMessage) (s' : State)
      → Pulls C u s ms s'
      → length (waiting s) ≤ pull_limit
      → Perm ms (decode_all (waiting s))
  pull-perm s ms s' e few =
      let p = pull-HasPulled C u s ms s' e in
      let no_rest : p.rest ≡ [] =
        nil_of_length p.rest
          (ground (arith, p.limited, perm-length p.read, length-append p.items p.rest)) in
      let all : Perm p.items (waiting s) =
        subst (λ xs. Perm xs (waiting s)) (ap (◌++◌ p.items) no_rest ∙ append-nil p.items) p.read in
      rw (p.decoded, decode_all-filter_map p.items, decode_all-filter_map (waiting s))
        (Perm.filter_map decode all)

  -- If more than 200 messages wait for a user, a call that returns some of them returns fewer
  -- than waited, and yet leaves none waiting: the others are never handed out.
  pub pull_loses :
      (s : State) (ms : List ChatMessage) (s' : State)
      → Pulls C u s ms s'
      → ms ≢ []
      → pull_limit < length (waiting s)
      → (length ms < length (waiting s)) × (waiting s' ≡ [])
  pull_loses s ms s' e some_found many =
      let (settled, few) = pull-settles s ms s' e some_found in (omega arith, settled)

  -- A call that succeeds leaves the messages that wait for another user untouched.
  pub pull_others :
      (v : String) (s : State) (ms : List ChatMessage) (s' : State)
      → v ≢ u
      → Pulls C u s ms s'
      → select (undelivered_for v) (documents s') ≡ select (undelivered_for v) (documents s)
  pull_others v s ms s' other e = same (pull-HasPulled C u s ms s' e).marked
    where
      same :
          (ms ≡ []) × (s' ≡ s) ⊎ (documents s' ≡ map (mark (undelivered_for u)) (documents s))
          → select (undelivered_for v) (documents s') ≡ select (undelivered_for v) (documents s)
      same (inl (_, kept)) = ap (λ x. select (undelivered_for v) (documents x)) kept
      same (inr marked) =
          ap (select (undelivered_for v)) marked ∙ select-mark_ne u v (documents s) other
