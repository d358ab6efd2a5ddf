-- ===== src/Api/Sessions.antt =====
-- From Register over Login to the routes that ask for a token, through the REST API.
use Prim.Native.String.{◌++◌}
use go_chat_x.Common.{
  ℕ, ◌+◌, ◌<◌, String, ◌≡◌, ◌≢◌, ◌⊎◌, refl, sym, ap, subst, ◌∙◌, inl, inr, Bool, true, false,
  Option, none, some, arith, [], Bool-cases, ◌==◌, List,
}
use go_chat_x.Go.{Result, done, panic, pure}
use go_chat_x.World.{RedisCommand}
use go_chat_x.Auth.{
  Reply, reply, internal, RegisterResponse, registered, logged_in_with, claims_of, register, issue,
  login, insert_reply, store_user, out_of, hash_password,
}
use go_chat_x.Auth.Backend.{
  User, Insert, inserted, duplicate, failed, broken, row, Users, Crypt, Tokens,
}
use go_chat_x.Auth.Accounts.{register-row}
use go_chat_x.Middleware.{next, auth_middleware}
use go_chat_x.Middleware.Access.{login-auth_middleware}
use go_chat_x.Http.{Credentials, Request, Response, Body, message, session, json_response, refuse}
use go_chat_x.Site.{Site}
use go_chat_x.Api.Account.{
  full_credentials, registered_reply, login_reply, call_register, rest_register, call_login,
  rest_login,
}
use go_chat_x.Api.Service.{over_rpc, Accounts, register_over, login_over, client_of}

-- A POST with full credentials reaches the service.
full_credentials-given :
    (c : Credentials)
    → (c.username == "") ≡ false
    → (c.password == "") ≡ false
    → full_credentials (some c) ≡ some c
unfolding full_credentials
full_credentials-given c named secured = rw (named, secured) refl

is_ok : {A : Type 0} → Result Response × A → Bool
is_ok (done r, s) = is_success r.body
  where
    is_success : Body → Bool
    is_success (message ok msg) = ok
    is_success _ = false
is_ok (panic, s) = false

has_succeeded : Reply RegisterResponse → Bool
has_succeeded (reply r) = r.success
has_succeeded (internal text) = false

insert_reply-ok : (i : Insert) → has_succeeded (insert_reply i) ≡ true → insert_reply i ≡ registered
unfolding insert_reply has_succeeded
insert_reply-ok inserted e = refl
insert_reply-ok duplicate e = absurd (ground (arith, e))
insert_reply-ok failed e = absurd (ground (arith, e))

module _ (U : Users) (B : Crypt) (K : Tokens) (secret : String) where
  register-ok :
      (salt : ℕ) (u p : String) (s : U.State)
      → has_succeeded (register U B K secret salt u p s).0 ≡ true
      → (register U B K secret salt u p s).0 ≡ registered
  unfolding register has_succeeded store_user
  register-ok salt u p s e = elim (Bool-cases (out_of 2 32 u)) [
    | inl out ↦ absurd (ground (arith, rw out at e))
    | inr fits ↦ elim (Bool-cases (out_of 6 72 p)) [
      | inl out ↦ absurd (ground (arith, rw (fits, out) at e))
      | inr safe ↦ rw (fits, safe) (stored (hash_password B salt p) (rw (fits, safe) at e))
    ]
  ]
    where
      stored :
          (o : Option String)
          → has_succeeded (store_user U B K secret u o s).0 ≡ true
          → (store_user U B K secret u o s).0 ≡ registered
      stored none h = absurd (ground (arith, h))
      stored (some hashed) h = insert_reply-ok (U.insert_user u hashed s).0 h

  issue_cases :
      (user : User) (o : Option String)
      → (issue U B K secret user o ≡ (internal "failed to sign token", []))
        ⊎ ((t : String) × (cs : List RedisCommand) × (issue U B K secret user o
              ≡ (logged_in_with t, cs)))
  unfolding issue
  issue_cases user none = inl refl
  issue_cases user (some t) = inr (t, _, refl)

row-inj : (user user' : User) → row user ≡ row user' → user ≡ user'
row-inj user user' e = cc

full_credentials-same : (c c' : Credentials) → full_credentials (some c) ≡ some c' → c ≡ c'
unfolding full_credentials
full_credentials-same c c' e = ground (arith, e)

reply-ok :
    {A : Type 0} (rpc_text : String → String) (x : Reply RegisterResponse) (s : A)
    → is_ok (done (registered_reply (over_rpc rpc_text x)), s) ≡ true
    → has_succeeded x ≡ true
unfolding is_ok has_succeeded registered_reply over_rpc json_response
reply-ok rpc_text (reply r) s e = e
reply-ok rpc_text (internal text) s e = absurd (ground (arith, e))

module _ (U : Users) (B : Crypt) (K : Tokens) (secret : String) (rpc_text : String → String)
    {S R : Type 0} where
  -- A successful login, as the page sees it.
  login-rest :
      (salt now : ℕ) (r : Request) (c : Credentials) (s : Site S (Accounts U) R) (t : String)
      (cs : List RedisCommand)
      → r.method ≡ "POST"
      → full_credentials r.credentials ≡ some c
      → login U B K secret now c.username c.password s.table.0 ≡ (logged_in_with t, cs)
      → (rest_login (some (client_of U B K secret rpc_text salt now)) r s).0
        ≡ done (json_response 200 (session true "Login successful" t))
  unfolding rest_login call_login login_over over_rpc login_reply
  login-rest salt now r c s t cs post full e = rw (post, full, e) refl

  -- A login whose token cannot be signed.
  login-rest_failed :
      (salt now : ℕ) (r : Request) (c : Credentials) (s : Site S (Accounts U) R)
      → r.method ≡ "POST"
      → full_credentials r.credentials ≡ some c
      → login U B K secret now c.username c.password s.table.0
        ≡ (internal "failed to sign token", [])
      → (rest_login (some (client_of U B K secret rpc_text salt now)) r s).0
        ≡ done (refuse 500 (rpc_text "failed to sign token"))
  unfolding rest_login call_login login_over over_rpc login_reply
  login-rest_failed salt now r c s post full e = rw (post, full, e) refl

  -- What a registration that the page sees succeed was.
  rest-register :
      (salt now : ℕ) (r : Request) (s s' : Site S (Accounts U) R) (m : String)
      → rest_register (some (client_of U B K secret rpc_text salt now)) r s
        ≡ (done (json_response 200 (message true m)), s')
      → (c : Credentials) × (full_credentials r.credentials ≡ some c)
        × (register U B K secret salt c.username c.password s.table.0 ≡ (registered, s'.table.0))
  unfolding rest_register pure is_ok json_response call_register register_over
  rest-register salt now r s s' m e = elim (Bool-cases (r.method == "POST")) [
    | inr other ↦ absurd (ground (arith, ap is_ok (rw other at e)))
    | inl post ↦ called (full_credentials r.credentials) (rw post at e)
  ]
    where
      called :
          (o : Option Credentials)
          → call_register (some (client_of U B K secret rpc_text salt now)) o s
            ≡ (done (json_response 200 (message true m)), s')
          → (c : Credentials) × (o ≡ some c)
            × (register U B K secret salt c.username c.password s.table.0
                ≡ (registered, s'.table.0))
      called none h = absurd (ground (arith, ap is_ok h))
      called (some c) h =
          let ok : has_succeeded (register U B K secret salt c.username c.password s.table.0).0
              ≡ true =
            reply-ok rpc_text (register U B K secret salt c.username c.password s.table.0).0 s
              (ap (λ y. is_ok (y.0, s)) h) in
          (
            c,
            refl,
            λ k. (
              register-ok U B K secret salt c.username c.password s.table.0 ok k,
              ap (λ y. y.1.table.0) h k,
            ),
          )

  -- Who has registered over the REST API gets, with the same credentials and if the query of Login
  -- succeeds, a token from Login, or status 500 when the signing fails; for 24 hours that token gets
  -- through AuthMiddleware, with the role "user".
  pub rest_register-rest_login :
      (salt salt' before now later : ℕ) (r r' : Request) (c : Credentials)
      (s s' : Site S (Accounts U) R) (m : String)
      → rest_register (some (client_of U B K secret rpc_text salt before)) r s
        ≡ (done (json_response 200 (message true m)), s')
      → r.credentials ≡ some c
      → r'.credentials ≡ some c
      → r'.method ≡ "POST"
      → U.select_user c.username s'.table.0 ≢ broken
      → later < now + 86400
      → ((rest_login (some (client_of U B K secret rpc_text salt' now)) r' s').0
          ≡ done (refuse 500 (rpc_text "failed to sign token")))
        ⊎ ((t : String) × (user : User) × ((rest_login
                (some (client_of U B K secret rpc_text salt' now))
                r'
                s').0
              ≡ done (json_response 200 (session true "Login successful" t)))
            × (user.username ≡ c.username)
            × (auth_middleware K secret later ("Bearer " ++ t) ≡ next user.id "user"))
  rest_register-rest_login salt salt' before now later r r' c s s' m e creds creds' post answers
        soon =
      let (c₁, full, reg) = rest-register salt before r s s' m e in
      let same : c ≡ c₁ = full_credentials-same c c₁ (ap full_credentials (sym creds) ∙ full) in
      let full' : full_credentials r'.credentials ≡ some c =
        ap full_credentials (creds' ∙ sym creds) ∙ full ∙ ap some (sym same) in
      let (user, found, named, ordinary, logs_in) =
        register-row U B K secret salt now c.username c.password s.table.0 s'.table.0
          (subst
            (λ (x : Credentials).
              register U B K secret salt x.username x.password s.table.0 ≡ (registered, s'.table.0))
            (sym same) reg)
          answers in
      elim (issue_cases U B K secret user (K.sign secret (claims_of now user))) [
        | inl fails ↦ inl (login-rest_failed salt' now r' c s' post full' (logs_in ∙ fails))
        | inr (t, cs, issued) ↦
            let (user', found', passes) =
              login-auth_middleware U B K secret now later c.username c.password t s'.table.0 cs
                (logs_in ∙ issued) soon in
            let one : user' ≡ user = row-inj user' user (sym found' ∙ found) in
            inr (
              t,
              user,
              login-rest salt' now r' c s' t cs post full' (logs_in ∙ issued),
              named,
              passes ∙ ap (λ (x : User). next x.id x.role) one ∙ ap (next user.id) ordinary,
            )
      ]
