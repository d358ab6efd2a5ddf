-- ===== src/Auth.antt =====
-- internal/auth/service.go: AuthService. What the clock reads, in seconds, and the salt are
-- arguments.
pub mod Backend
pub mod Accounts
pub mod Start
use Prim.Native.String.{◌++◌, len}
use go_chat_x.Common.{
  ℕ, ◌+◌, String, Bool, true, false, ◌||◌, not, Option, none, some, List, [], ◌∷◌, ltb, ◌==◌,
  if◌then◌else◌,
}
use go_chat_x.World.{RedisCommand, set}
use go_chat_x.Auth.Backend.{
  User, Insert, inserted, duplicate, failed, Selected, broken, no_row, row, Users, Crypt, Claims,
  Method, hmac, other_method, Tokens,
}

-- The bytes of the text, in UTF-8, are too few or too many.
unfoldable pub out_of : (least most : ℕ) → String → Bool
out_of least most s = ltb (len s) least || ltb most (len s)

-- A response, or a gRPC status with the code Internal.
pub data Reply (A : Type 0) : Type 0 where
  reply : A → Reply A
  internal : (message : String) → Reply A

pub record RegisterResponse : Type 0 where
  pub success : Bool
  pub message : String

pub record LoginResponse : Type 0 where
  pub success : Bool
  pub message : String
  pub token : String

pub record ValidateResponse : Type 0 where
  pub valid : Bool
  pub user_id : String

abbrev pub not_registered : String → Reply RegisterResponse
not_registered reason = reply (record { success = false; message = reason })

abbrev pub registered : Reply RegisterResponse
registered = reply (record { success = true; message = "Registration successful" })

abbrev pub not_logged_in : String → Reply LoginResponse
not_logged_in reason = reply (record { success = false; message = reason; token = "" })

abbrev pub logged_in_with : String → Reply LoginResponse
logged_in_with token =
    reply (record { success = true; message = "Login successful"; token = token })

abbrev pub not_valid : ValidateResponse
not_valid = record { valid = false; user_id = "" }

unfoldable pub hash_password : Crypt → (salt : ℕ) (password : String) → Option String
hash_password B salt password = B.generate salt password

unfoldable pub check_password : Crypt → (hash password : String) → Bool
check_password B hash password = B.compare hash password

unfoldable pub insert_reply : Insert → Reply RegisterResponse
insert_reply inserted = registered
insert_reply duplicate = not_registered "username already exists"
insert_reply failed = internal "database error"

-- The key function of both parsers.
unfoldable pub key_of : String → Method → Option String
key_of secret hmac = some secret
key_of secret other_method = none

unfoldable pub claims_of : (now : ℕ) → User → Claims
claims_of now u = record {
  user_id = u.id;
  role = u.role;
  issuer = "gochatx-auth";
  subject = u.id;
  expires_at = now + 86400;
  issued_at = now;
}

unfoldable pub claims_if_valid : Option (Claims × Bool) → Option Claims
claims_if_valid none = none
claims_if_valid (some (c, valid)) = if valid then some c else none

unfoldable pub validate_reply : Option (Claims × Bool) → ValidateResponse
validate_reply none = not_valid
validate_reply (some (c, valid)) =
    if valid then record { valid = true; user_id = c.user_id } else not_valid

module _ (U : Users) (B : Crypt) (T : Tokens) (secret : String) where
  open U use {State, insert_user, select_user}

  unfoldable pub store_user : String → Option String → State → Reply RegisterResponse × State
  store_user username none s = (internal "failed to hash password", s)
  store_user username (some hashed) s =
      let (result, s') = insert_user username hashed s in (insert_reply result, s')

  unfoldable pub register :
      (salt : ℕ) (username password : String) → State → Reply RegisterResponse × State
  register salt username password s =
      if out_of 2 32 username
      then (not_registered "username must be 2-32 characters", s)
      else if out_of 6 72 password
      then (not_registered "password must be 6-72 characters", s)
      else store_user username (hash_password B salt password) s

  -- The token, and the command to Redis, whose error is only logged.
  unfoldable pub issue : User → Option String → Reply LoginResponse × List RedisCommand
  issue u none = (internal "failed to sign token", [])
  issue u (some token) =
      (logged_in_with token, set ("user:" ++ (u.id ++ ":online")) "true" 86400 ∷ [])

  unfoldable pub check_user :
      (now : ℕ) (password : String) → Selected → Reply LoginResponse × List RedisCommand
  check_user now password broken = (not_logged_in "user not found", [])
  check_user now password no_row = (not_logged_in "user not found", [])
  check_user now password (row u) =
      if check_password B u.password password
      then issue u (T.sign secret (claims_of now u))
      else (not_logged_in "incorrect password", [])

  unfoldable pub login :
      (now : ℕ) (username password : String) → State → Reply LoginResponse × List RedisCommand
  login now username password s =
      if (username == "") || (password == "")
      then (not_logged_in "username and password required", [])
      else check_user now password (select_user username s)

unfoldable pub validate : Tokens → (secret : String) → (now : ℕ) → String → ValidateResponse
validate T secret now token = validate_reply (T.parse (key_of secret) now token)

unfoldable pub parse_token : Tokens → (secret : String) → (now : ℕ) → String → Option Claims
parse_token T secret now token = claims_if_valid (T.parse (key_of secret) now token)
