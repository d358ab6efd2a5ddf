-- ===== src/Middleware.antt =====
-- internal/gateway/middleware.go: AuthMiddleware and AdminMiddleware, as what they do with the
-- Authorization header of a request. Its claims have the fields of the auth service's claims.
pub mod Access
pub mod Limiter
pub mod Window
pub mod Rate
pub mod Cors
use go_chat_x.Common.{
  ℕ, String, Bool, true, false, ◌||◌, not, Option, none, some, ◌==◌, if◌then◌else◌,
}
use Prim.Native.String.{len, slice}
use text.Mathlib.Text.{starts_with}
use go_chat_x.Auth.{key_of}
use go_chat_x.Auth.Backend.{Claims, Tokens}

-- An answer in place of the next handler, or the next handler with the values of the context.
pub data Outcome : Type 0 where
  answered : (status : ℕ) (message : String) → Outcome
  next : (user_id role : String) → Outcome

-- strings.TrimPrefix(header, "Bearer ") of a header with that prefix
unfoldable pub bearer_token : String → String
bearer_token header = slice header 7 (len header)

unfoldable pub lacks_bearer : String → Bool
lacks_bearer header = (header == "") || not (starts_with header "Bearer ")

unfoldable pub valid_claims : Option (Claims × Bool) → Option Claims
valid_claims none = none
valid_claims (some (c, valid)) = if valid then some c else none

module _ (T : Tokens) (secret : String) (now : ℕ) where
  unfoldable pub parse_jwt_token : String → Option Claims
  parse_jwt_token token = valid_claims (T.parse (key_of secret) now token)

  abbrev pub no_header : Outcome
  no_header = answered 401 "missing or invalid authorization header"

  abbrev pub invalid_token : Outcome
  invalid_token = answered 401 "invalid token"

  unfoldable pub pass_on : Option Claims → Outcome
  pass_on none = invalid_token
  pass_on (some c) = next c.user_id c.role

  unfoldable pub pass_admin : Option Claims → Outcome
  pass_admin none = invalid_token
  pass_admin (some c) =
      if c.role == "admin" then next c.user_id c.role else answered 403 "admin access required"

  unfoldable pub auth_middleware : String → Outcome
  auth_middleware header =
      if lacks_bearer header then no_header else pass_on (parse_jwt_token (bearer_token header))

  unfoldable pub admin_middleware : String → Outcome
  admin_middleware header =
      if lacks_bearer header then no_header else pass_admin (parse_jwt_token (bearer_token header))
