-- ===== src/Middleware/Access.antt =====
-- Who gets through the two middlewares.
use Prim.Native.String.{◌++◌, len, slice}
use text.Mathlib.TextPositions.{starts_with-append, len-append, slice-append_right}
use go_chat_x.Common.{
  ℕ, ◌+◌, ◌<◌, String, ◌≡◌, ◌↔◌, refl, ap, ◌∙◌, inl, inr, Bool, false, Option, none, some, List,
  ◌==◌, arith, eq_iff, Bool-cases,
}
use go_chat_x.World.{RedisCommand}
use go_chat_x.Auth.{key_of, claims_of, claims_if_valid, logged_in_with, login, parse_token}
use go_chat_x.Auth.Backend.{User, row, Users, Crypt, Claims, Tokens}
use go_chat_x.Auth.Accounts.{login-validate}
use go_chat_x.Middleware.{
  answered, next, bearer_token, lacks_bearer, valid_claims, parse_jwt_token, pass_on, pass_admin,
  auth_middleware, admin_middleware,
}

-- An answer is never the next handler.
answered_iff :
    (status : ℕ) (message u r : String)
    → (answered status message ≡ next u r) ↔ ((answered status message ≡ next u r) × (r ≡ "admin"))
answered_iff status message u r = (λ e. absurd (ground arith), λ h. h.0)

module _ (T : Tokens) (secret : String) (now : ℕ) where
  pass_admin_iff :
      (o : Option Claims) (u r : String)
      → (pass_admin T secret now o ≡ next u r)
        ↔ ((pass_on T secret now o ≡ next u r) × (r ≡ "admin"))
  unfolding pass_admin pass_on
  pass_admin_iff none u r = answered_iff 401 "invalid token" u r
  pass_admin_iff (some c) u r = ground (arith, eq_iff c.role "admin", eq_iff r "admin")

  -- AdminMiddleware lets a request through exactly when AuthMiddleware does and the role in the
  -- token is "admin", and hands on the same user and role.
  pub admin_middleware-next_iff :
      (header u r : String)
      → (admin_middleware T secret now header ≡ next u r)
        ↔ ((auth_middleware T secret now header ≡ next u r) × (r ≡ "admin"))
  unfolding admin_middleware auth_middleware
  admin_middleware-next_iff header u r = elim (Bool-cases (lacks_bearer header)) [
    | inl lacks ↦ rw lacks (answered_iff 401 "missing or invalid authorization header" u r)
    | inr has ↦ rw has (pass_admin_iff (parse_jwt_token T secret now (bearer_token header)) u r)
  ]

same_parse :
    (T : Tokens) (secret : String) (now : ℕ) (t : String)
    → parse_jwt_token T secret now t ≡ parse_token T secret now t
unfolding parse_jwt_token parse_token valid_claims claims_if_valid
same_parse T secret now t = same (T.parse (key_of secret) now t)
  where
    same : (o : Option (Claims × Bool)) → valid_claims o ≡ claims_if_valid o
    same none = refl
    same (some (c, valid)) = refl

bearer-ne-nil : (t : String) → (("Bearer " ++ t) == "") ≡ false
bearer-ne-nil t = elim (Bool-cases (("Bearer " ++ t) == "")) [
  | inr other ↦ other
  | inl empty ↦
      let no_bytes : len ("Bearer " ++ t) ≡ 0 = ap len ((eq_iff ("Bearer " ++ t) "").0 empty) in
      absurd (omega (arith, no_bytes, len-append "Bearer " t))
]

has_bearer : (t : String) → lacks_bearer ("Bearer " ++ t) ≡ false
unfolding lacks_bearer
has_bearer t = rw (starts_with-append "Bearer " t, bearer-ne-nil t) refl

taken : (t : String) → bearer_token ("Bearer " ++ t) ≡ t
unfolding bearer_token
taken t = ap (slice ("Bearer " ++ t) 7) (len-append "Bearer " t) ∙ slice-append_right "Bearer " t

-- For 24 hours the token of a login gets through AuthMiddleware, with the id and the role of the
-- user that Login found, if the gateway has the secret of the auth service.
pub login-auth_middleware :
    (U : Users) (B : Crypt) (T : Tokens) (secret : String) (now later : ℕ) (u p t : String)
    (s : U.State) (cs : List RedisCommand)
    → login U B T secret now u p s ≡ (logged_in_with t, cs)
    → later < now + 86400
    → (user : User) × (U.select_user u s ≡ row user)
      × (auth_middleware T secret later ("Bearer " ++ t) ≡ next user.id user.role)
unfolding auth_middleware
login-auth_middleware U B T secret now later u p t s cs e soon =
    let (user, found, _, _, parsed) = login-validate U B T secret now later u p t s cs e soon in
    (
      user,
      found,
      (rw (has_bearer t, taken t, same_parse T secret later t, parsed)
          (unfold pass_on claims_of in refl)),
    )
