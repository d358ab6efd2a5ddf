-- ===== src/Auth/Accounts.antt =====
-- From Register over Login to Validate.
use go_chat_x.Common.{
  ℕ, ◌+◌, ◌<◌, String, ◌≡◌, ◌≢◌, refl, ap, subst, ◌∙◌, inl, inr, Bool, true, false, ◌||◌, Option,
  none, some, List, ◌==◌, if◌then◌else◌, arith, eq_iff, Bool-cases,
}
use go_chat_x.World.{RedisCommand}
use go_chat_x.Auth.Backend.{
  User, Insert, inserted, duplicate, failed, Selected, broken, no_row, row, Users, Crypt, Tokens,
}
use go_chat_x.Auth.{
  hash_password, check_password, out_of, Reply, reply, internal, RegisterResponse, LoginResponse,
  registered, logged_in_with, insert_reply, key_of, claims_of, claims_if_valid, validate_reply,
  store_user, register, issue, check_user, login, validate, parse_token,
}

empty_out : (least most : ℕ) → 0 < least → out_of least most "" ≡ true
unfolding out_of
empty_out least most some_least = ground arith

given : (least most : ℕ) (s : String) → 0 < least → out_of least most s ≡ false → (s == "") ≡ false
given least most s some_least fits = elim (Bool-cases (s == "")) [
  | inr other ↦ other
  | inl empty ↦ absurd (
      ground (
        arith,
        eq_iff s "",
        empty_out least most some_least,
        subst (λ x. out_of least most x ≡ false) ((eq_iff s "").0 empty) fits,
      ))
]

-- A test whose first branch gives something else has failed.
other_branch :
    {A : Type 0} (test : Bool) (x y r : A)
    → (if test then x else y) ≡ r
    → x ≢ r
    → (test ≡ false) × (y ≡ r)
other_branch true x y r e differs = absurd (differs e)
other_branch false x y r e differs = (refl, e)

first_branch :
    {A : Type 0} (test : Bool) (x y r : A)
    → (if test then x else y) ≡ r
    → y ≢ r
    → (test ≡ true) × (x ≡ r)
first_branch true x y r e differs = (refl, e)
first_branch false x y r e differs = absurd (differs e)

succeeded : Reply RegisterResponse → Bool
succeeded (reply r) = r.success
succeeded (internal _) = false

has_token : Reply LoginResponse → Bool
has_token (reply r) = r.success
has_token (internal _) = false

token_of : Reply LoginResponse → String
token_of (reply r) = r.token
token_of (internal _) = ""

false-ne-true : false ≢ true
false-ne-true e = ground arith

insert_reply_cases : (i : Insert) → insert_reply i ≡ registered → i ≡ inserted
unfolding insert_reply succeeded
insert_reply_cases inserted e = refl
insert_reply_cases duplicate e = absurd (false-ne-true (ap succeeded e))
insert_reply_cases failed e = absurd (false-ne-true (ap succeeded e))

module _ (U : Users) (B : Crypt) (T : Tokens) (secret : String) where
  open U use {State, insert_user, select_user}

  -- What a registration that succeeds has done.
  record HasRegistered (salt : ℕ) (u p : String) (s s' : State) : Type 0 where
    hash : String
    hashed : hash_password B salt p ≡ some hash
    stored : insert_user u hash s ≡ (inserted, s')
    named : (u == "") ≡ false
    secured : (p == "") ≡ false

  store_user_cases :
      (u : String) (o : Option String) (s s' : State)
      → store_user U B T secret u o s ≡ (registered, s')
      → (hash : String) × (o ≡ some hash) × (insert_user u hash s ≡ (inserted, s'))
  unfolding store_user succeeded
  store_user_cases u none s s' e = absurd (false-ne-true (ap (λ x. succeeded x.0) e))
  store_user_cases u (some hash) s s' e =
      (hash, refl, λ k. (insert_reply_cases (insert_user u hash s).0 (ap (λ x. x.0) e) k, (e k).1))

  register-HasRegistered :
      (salt : ℕ) (u p : String) (s s' : State)
      → register U B T secret salt u p s ≡ (registered, s')
      → HasRegistered salt u p s s'
  unfolding register succeeded
  register-HasRegistered salt u p s s' e =
      let (u_fits, e') =
        other_branch (out_of 2 32 u) _ _ _ e (λ x. false-ne-true (ap (λ q. succeeded q.0) x)) in
      let (p_fits, e'') =
        other_branch (out_of 6 72 p) _ _ _ e' (λ x. false-ne-true (ap (λ q. succeeded q.0) x)) in
      let (hash, hashed, stored) = store_user_cases u _ s s' e'' in
      record {
        hash = hash;
        hashed = hashed;
        stored = stored;
        named = given 2 32 u (omega arith) u_fits;
        secured = given 6 72 p (omega arith) p_fits;
      }

  -- The row that a registration has left, and the login with it.
  pub register-row :
      (salt now : ℕ) (u p : String) (s s' : State)
      → register U B T secret salt u p s ≡ (registered, s')
      → select_user u s' ≢ broken
      → (user : User) × (select_user u s' ≡ row user)
        × (user.username ≡ u)
        × (user.role ≡ "user")
        × (login U B T secret now u p s'
            ≡ issue U B T secret user (T.sign secret (claims_of now user)))
  unfolding login check_user check_password hash_password
  register-row salt now u p s s' e answers =
      let r = register-HasRegistered salt u p s s' e in
      let (id, found) = U.inserted_row u r.hash s s' r.stored in
      elim found [
        | inl fails ↦ absurd (answers fails)
        | inr there ↦ (
          record { id = id; username = u; password = r.hash; role = "user" },
          there,
          refl,
          refl,
          rw (r.named, r.secured, there, B.generated salt p r.hash r.hashed) refl,
        )
      ]

  -- Who has registered can log in with the same name and password, unless the query fails: the
  -- user that Login finds has the name and the role "user", and Login goes on to sign its token.
  pub register-login :
      (salt now : ℕ) (u p : String) (s s' : State)
      → register U B T secret salt u p s ≡ (registered, s')
      → select_user u s' ≢ broken
      → (user : User) × (user.username ≡ u)
        × (user.role ≡ "user")
        × (login U B T secret now u p s'
            ≡ issue U B T secret user (T.sign secret (claims_of now user)))
  register-login salt now u p s s' e answers =
      let (user, _, named, ordinary, logs_in) = register-row salt now u p s s' e answers in
      (user, named, ordinary, logs_in)

  issue_cases :
      (user : User) (o : Option String) (t : String) (cs : List RedisCommand)
      → issue U B T secret user o ≡ (logged_in_with t, cs)
      → o ≡ some t
  unfolding issue has_token token_of
  issue_cases user none t cs e = absurd (false-ne-true (ap (λ x. has_token x.0) e))
  issue_cases user (some t') t cs e = ap some (ap (λ x. token_of x.0) e)

  check_user_cases :
      (now : ℕ) (p t : String) (found : Selected) (cs : List RedisCommand)
      → check_user U B T secret now p found ≡ (logged_in_with t, cs)
      → (user : User) × (found ≡ row user)
        × (check_password B user.password p ≡ true)
        × (T.sign secret (claims_of now user) ≡ some t)
  unfolding check_user has_token
  check_user_cases now p t broken cs e = absurd (false-ne-true (ap (λ x. has_token x.0) e))
  check_user_cases now p t no_row cs e = absurd (false-ne-true (ap (λ x. has_token x.0) e))
  check_user_cases now p t (row user) cs e =
      let (matches, issued) =
        first_branch (check_password B user.password p) _ _ _ e
          (λ x. false-ne-true (ap (λ q. has_token q.0) x)) in
      (user, refl, matches, issue_cases user _ t cs issued)

  -- A login that succeeds has found a row of that name whose hash the password matches; within 24
  -- hours its token is valid for that row's id, and ParseToken gives the row's id and role.
  pub login-validate :
      (now later : ℕ) (u p t : String) (s : State) (cs : List RedisCommand)
      → login U B T secret now u p s ≡ (logged_in_with t, cs)
      → later < now + 86400
      → (user : User) × (select_user u s ≡ row user)
        × (check_password B user.password p ≡ true)
        × (validate T secret later t ≡ record { valid = true; user_id = user.id })
        × (parse_token T secret later t ≡ some (claims_of now user))
  unfolding login has_token validate parse_token claims_of key_of
  login-validate now later u p t s cs e soon =
      let (_, checked) =
        other_branch ((u == "") || (p == "")) _ _ _ e
          (λ x. false-ne-true (ap (λ q. has_token q.0) x)) in
      let (user, found, matches, signs) = check_user_cases now p t (select_user u s) cs checked in
      let parsed : T.parse (key_of secret) later t ≡ some (claims_of now user, true) =
        T.signed secret (claims_of now user) t (key_of secret) later signs refl soon in
      (
        user,
        found,
        matches,
        ap validate_reply parsed ∙ (unfold validate_reply in refl),
        ap claims_if_valid parsed ∙ (unfold claims_if_valid in refl),
      )
