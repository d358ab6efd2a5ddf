-- ===== src/Tests/Accounts.antt =====
-- The theorems on accounts for one user, over a table in memory, a transparent hash and a signer
-- that signs one set of claims.
mod Sessions
use Prim.Native.String.{◌++◌}
use go_chat_x.Common.{
  ℕ, ◌<◌, String, ◌≡◌, ◌≢◌, refl, sym, ap, subst, ◌∙◌, inr, arith, Bool, true, false, ◌&&◌, Option,
  none, some, List, [], ◌∷◌, ltb, eqb, ◌==◌, if◌then◌else◌, eq_iff, eq_refl, ◌↔◌, Bool-cases, inl,
}
use go_chat_x.World.{RedisCommand, set}
use go_chat_x.Auth.Backend.{
  User, Insert, inserted, duplicate, Selected, broken, no_row, row, Users, Crypt, Claims, Method,
  hmac, Tokens,
}
use go_chat_x.Auth.{
  hash_password, check_password, out_of, registered, logged_in_with, insert_reply, claims_of,
  store_user, register, issue, check_user, login, validate, parse_token,
}
use go_chat_x.Auth.Accounts.{register-login, login-validate}
use go_chat_x.Middleware.{next, auth_middleware, admin_middleware}
use go_chat_x.Middleware.Access.{login-auth_middleware, admin_middleware-next_iff}

select_in : String → List User → Selected
select_in u [] = no_row
select_in u (r ∷ rs) = if r.username == u then row r else select_in u rs

insert_after : String → String → List User → Selected → Insert × List User
insert_after u pw s (row _) = (duplicate, s)
insert_after u pw s _ =
    (inserted, record { id = "1"; username = u; password = pw; role = "user" } ∷ s)

insert_in : String → String → List User → Insert × List User
unfolding insert_after
insert_in u pw s = insert_after u pw s (select_in u s)

found_first :
    (u pw : String) (s s' : List User)
    → record { id = "1"; username = u; password = pw; role = "user" } ∷ s ≡ s'
    → select_in u s' ≡ row (record { id = "1"; username = u; password = pw; role = "user" })
unfolding select_in
found_first u pw s s' e =
    let r : User = record { id = "1"; username = u; password = pw; role = "user" } in
    subst (λ x. select_in u x ≡ row r) e (rw (eq_refl u) refl)

insert_after-row :
    (u pw : String) (s s' : List User) (o : Selected)
    → insert_after u pw s o ≡ (inserted, s')
    → select_in u s' ≡ row (record { id = "1"; username = u; password = pw; role = "user" })
unfolding insert_after
insert_after-row u pw s s' broken e = found_first u pw s s' (ap (λ x. x.1) e)
insert_after-row u pw s s' no_row e = found_first u pw s s' (ap (λ x. x.1) e)
insert_after-row u pw s s' (row r) e = absurd (ground (arith, ap (λ x. x.0) e))

abbrev table : Users
table = record {
  State = List User;
  insert_user = insert_in;
  select_user = select_in;
  inserted_row = λ u pw s s' e.
      ("1", inr (insert_after-row u pw s s' (select_in u s) (unfold insert_in in e)));
}

plain_compare :
    (salt : ℕ) (p h : String)
    → ◌≡◌ {A = Option String} (some ("#" ++ p)) (some h)
    → (h == ("#" ++ p)) ≡ true
plain_compare salt p h e = ground (arith, eq_iff h ("#" ++ p))

abbrev plain : Crypt
plain = record {
  generate = λ salt p. some ("#" ++ p);
  compare = λ h p. h == ("#" ++ p);
  generated = plain_compare;
}

abbrev ann_claims : Claims
ann_claims = record {
  user_id = "1";
  role = "user";
  issuer = "gochatx-auth";
  subject = "1";
  expires_at = 86500;
  issued_at = 100;
}

same_claims : Claims → Bool
same_claims c =
    (c.user_id == "1")
    && (c.role == "user")
    && (c.issuer == "gochatx-auth")
    && (c.subject == "1")
    && eqb c.expires_at 86500
    && eqb c.issued_at 100

same_claims_lem : (c : Claims) → same_claims c ≡ true → c ≡ ann_claims
unfolding same_claims
same_claims_lem c e = ground (
  arith,
  eq_iff c.user_id "1",
  eq_iff c.role "user",
  eq_iff c.issuer "gochatx-auth",
  eq_iff c.subject "1",
)

sign_with : (secret : String) → Claims → Option String
unfolding same_claims
sign_with secret c = if secret == "s3cret" && same_claims c then some "token" else none

accepts_key : Option String → Bool
accepts_key none = false
accepts_key (some secret) = secret == "s3cret"

parse_with : (Method → Option String) → (now : ℕ) → String → Option (Claims × Bool)
unfolding accepts_key
parse_with key now t =
    if t == "token" && accepts_key (key hmac) && ltb now 86500
    then some (ann_claims, true)
    else none

sign_with_cases :
    (secret : String) (c : Claims) (t : String)
    → sign_with secret c ≡ some t
    → (secret ≡ "s3cret") × (c ≡ ann_claims) × (t ≡ "token")
unfolding sign_with
sign_with_cases secret c t e = elim (Bool-cases (secret == "s3cret" && same_claims c)) [
  | inl both ↦
      (ground (arith, eq_iff secret "s3cret"), same_claims_lem c (ground arith), ground arith)
  | inr none_of ↦ absurd (ground arith)
]

parse_with_lem :
    (secret : String) (c : Claims) (t : String) (key : Method → Option String) (now : ℕ)
    → sign_with secret c ≡ some t
    → key hmac ≡ some secret
    → now < c.expires_at
    → parse_with key now t ≡ some (c, true)
unfolding parse_with accepts_key
parse_with_lem secret c t key now e k soon =
    let (secret_is, c_is, t_is) = sign_with_cases secret c t e in
    let good : accepts_key (key hmac) ≡ true =
      ap accepts_key k ∙ ap (λ x. x == "s3cret") secret_is in
    let early : ltb now 86500 ≡ true = ground (arith, soon, ap (λ x. x.expires_at) c_is) in
    (rw (t_is, good, early) refl) ∙ ap (λ x. some (x, true)) (sym c_is)

abbrev signer : Tokens
signer = record { sign = sign_with; parse = parse_with; signed = parse_with_lem }

abbrev ann_row : User
ann_row = record { id = "1"; username = "ann"; password = "#secret!"; role = "user" }

registers : register table plain signer "s3cret" 7 "ann" "secret!" [] ≡ (registered, ann_row ∷ [])
unfolding register hash_password out_of store_user insert_reply insert_in select_in
registers = refl

answers : select_in "ann" (ann_row ∷ []) ≢ broken
unfolding select_in
answers e = cc

abbrev commands : List RedisCommand
commands = set "user:1:online" "true" 86400 ∷ []

logs_in :
    login table plain signer "s3cret" 100 "ann" "secret!" (ann_row ∷ [])
    ≡ (logged_in_with "token", commands)
unfolding login check_user check_password issue select_in sign_with claims_of
logs_in = refl

login-validate_example :
    (user : User) × (select_in "ann" (ann_row ∷ []) ≡ row user)
    × (check_password plain user.password "secret!" ≡ true)
    × (validate signer "s3cret" 200 "token" ≡ record { valid = true; user_id = user.id })
    × (parse_token signer "s3cret" 200 "token" ≡ some (claims_of 100 user))
login-validate_example =
    login-validate table plain signer "s3cret" 100 200 "ann" "secret!" "token" (ann_row ∷ [])
      commands logs_in (omega arith)
