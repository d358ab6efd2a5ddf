-- ===== src/Tests/Backends.antt =====
-- Sorted sets in memory and a table of roles in memory that meet the documented behaviour of Redis
-- and of MySQL.
use go_chat_x.Common.{
  ℕ, zero, suc, ◌+◌, ◌≤◌, String, ◌≡◌, ◌≢◌, refl, sym, ap, ◌∙◌, inl, inr, false, ◌||◌, Option, none,
  some, List, [], ltb, ◌==◌, if◌then◌else◌, arith, eq_iff, eq_refl, Bool-cases,
}
use go_chat_x.GoMap.{GoMap, lookup, insert}
use go_chat_x.GoMap.Laws.{lookup-insert_self}
use go_chat_x.Middleware.Limiter.{card, effects, lifetime, Pipeline, SortedSets}
use go_chat_x.Api.Backend.{Roles}

-- The members of a key, and when it expires.
pub record Cell : Type 0 where
  pub expiry : ℕ
  pub members : List ℕ

unfoldable pub members_in : String → ℕ → (String → Cell) → List ℕ
members_in key now s = if ltb now (s key).expiry then (s key).members else []

unfoldable pub store_at : String → Cell → (String → Cell) → String → Cell
store_at key c s k = if key == k then c else s k

unfoldable pub expiry_of : ℕ → ℕ → Option ℕ → ℕ
expiry_of now old none = old
expiry_of now old (some window) = now + window

unfoldable pub exec_in : Pipeline → (String → Cell) → Option ℕ × (String → Cell)
unfolding members_in store_at
exec_in p s =
    let ms = members_in p.key p.now s in
    (
      some (card p.commands ms),
      store_at p.key
          (record {
            expiry = expiry_of p.now (s p.key).expiry (lifetime p.commands);
            members = effects p.commands ms;
          })
          s,
    )

some-inj : (m n : ℕ) → some m ≡ some n → m ≡ n
some-inj m n e = ground (arith, e)

pub counted_in :
    (p : Pipeline) (s s' : String → Cell) (n : ℕ)
    → exec_in p s ≡ (some n, s')
    → n ≡ card p.commands (members_in p.key p.now s)
unfolding exec_in
counted_in p s s' n e = sym (some-inj _ n (ap (λ r. r.0) e))

pub added_in :
    (p : Pipeline) (s s' : String → Cell) (n later window : ℕ)
    → exec_in p s ≡ (some n, s')
    → p.now ≤ later
    → lifetime p.commands ≡ some window
    → members_in p.key later s'
      ≡ (if ltb later (p.now + window) then effects p.commands (members_in p.key p.now s) else [])
unfolding exec_in members_in store_at expiry_of
added_in p s s' n later window e before lives =
    ap (λ r. members_in p.key later r.1) (sym e) ∙ (rw (eq_refl p.key, lives) refl)

pub other_in :
    (p : Pipeline) (s s' : String → Cell) (n later : ℕ) (key : String)
    → exec_in p s ≡ (some n, s')
    → key ≢ p.key
    → members_in key later s' ≡ members_in key later s
unfolding exec_in members_in store_at
other_in p s s' n later key e other =
    ap (λ r. members_in key later r.1) (sym e) ∙ (rw (differs) refl)
  where
    differs : (p.key == key) ≡ false
    differs = elim (Bool-cases (p.key == key)) [
      | inr apart ↦ apart
      | inl same ↦ absurd (other (sym ((eq_iff p.key key).0 same)))
    ]

abbrev pub sets : SortedSets
sets = record {
  State = String → Cell;
  members = members_in;
  exec = exec_in;
  counted = counted_in;
  added = added_in;
  other_keys = other_in;
}

abbrev pub no_sets : String → Cell
no_sets k = record { expiry = 0; members = [] }

-- The statements, over the roles by user ID.
unfoldable pub ban_role : String → Option String → GoMap String → Option ℕ × GoMap String
ban_role id none t = (some 0, t)
ban_role id (some role) t =
    if (role == "admin") || (role == "banned") then (some 0, t) else (some 1, insert id "banned" t)

unfoldable pub ban_in : String → GoMap String → Option ℕ × GoMap String
ban_in id t = ban_role id (lookup id t) t

unfoldable pub unban_role : String → Option String → GoMap String → Option ℕ × GoMap String
unban_role id none t = (some 0, t)
unban_role id (some role) t = if role == "banned" then (some 1, insert id "user" t) else (some 0, t)

unfoldable pub unban_in : String → GoMap String → Option ℕ × GoMap String
unban_in id t = unban_role id (lookup id t) t

changed : Option ℕ → ℕ
changed none = 0
changed (some n) = n

banned_role :
    (id : String) (o : Option String) (t t' : GoMap String) (n : ℕ)
    → ban_role id o t ≡ (some (suc n), t')
    → lookup id t' ≡ some "banned"
unfolding ban_role changed
banned_role id none t t' n e = absurd (omega (arith, ap (λ r. changed r.0) e))
banned_role id (some role) t t' n e = elim (Bool-cases ((role == "admin") || (role == "banned"))) [
  | inl spare ↦ absurd (omega (arith, ap (λ r. changed r.0) (rw spare at e)))
  | inr other ↦ ap (λ r. lookup id r.1) (sym (rw other at e)) ∙ lookup-insert_self id "banned" t
]

pub banned_in :
    (id : String) (t t' : GoMap String) (n : ℕ)
    → ban_in id t ≡ (some (suc n), t')
    → lookup id t' ≡ some "banned"
unfolding ban_in
banned_in id t t' n e = banned_role id (lookup id t) t t' n e

pub spared_in :
    (id : String) (t : GoMap String)
    → lookup id t ≡ some "admin"
    → lookup id (ban_in id t).1 ≡ some "admin"
unfolding ban_in ban_role
spared_in id t e = rw (e) e

unbanned_role :
    (id : String) (o : Option String) (t t' : GoMap String) (n : ℕ)
    → unban_role id o t ≡ (some (suc n), t')
    → lookup id t' ≡ some "user"
unfolding unban_role changed
unbanned_role id none t t' n e = absurd (omega (arith, ap (λ r. changed r.0) e))
unbanned_role id (some role) t t' n e = elim (Bool-cases (role == "banned")) [
  | inr other ↦ absurd (omega (arith, ap (λ r. changed r.0) (rw other at e)))
  | inl out ↦ ap (λ r. lookup id r.1) (sym (rw out at e)) ∙ lookup-insert_self id "user" t
]

pub unbanned_in :
    (id : String) (t t' : GoMap String) (n : ℕ)
    → unban_in id t ≡ (some (suc n), t')
    → lookup id t' ≡ some "user"
unfolding unban_in
unbanned_in id t t' n e = unbanned_role id (lookup id t) t t' n e

unchanged_role :
    (id j : String) (o : Option String) (t t' : GoMap String)
    → ban_role id o t ≡ (some zero, t')
    → lookup j t' ≡ lookup j t
unfolding ban_role changed
unchanged_role id j none t t' e = ap (λ r. lookup j r.1) (sym e)
unchanged_role id j (some role) t t' e =
    elim (Bool-cases ((role == "admin") || (role == "banned"))) [
      | inl spare ↦ ap (λ r. lookup j r.1) (sym (rw spare at e))
      | inr other ↦ absurd (omega (arith, ap (λ r. changed r.0) (rw other at e)))
    ]

pub unchanged_in :
    (id j : String) (t t' : GoMap String) → ban_in id t ≡ (some zero, t') → lookup j t' ≡ lookup j t
unfolding ban_in
unchanged_in id j t t' e = unchanged_role id j (lookup id t) t t' e

abbrev pub role_table : Roles (GoMap String)
role_table = record {
  role_of = lookup;
  ban = ban_in;
  unban = unban_in;
  list_users = λ t. some [];
  banned = banned_in;
  spared = spared_in;
  unbanned = unbanned_in;
  unchanged = unchanged_in;
}
