-- ===== src/Api/Backend.antt =====
-- What the REST API uses of other packages and processes: the auth service over gRPC, the table of
-- users in MySQL, and the file system.
use go_chat_x.Common.{ℕ, zero, suc, String, ◌≡◌, Bool, Option, some, List}
use go_chat_x.Auth.{RegisterResponse, LoginResponse}

-- The result of a call: a response, or the text of an error.
pub data Call (A : Type 0) : Type 0 where
  returned : A → Call A
  failed : (text : String) → Call A

-- AuthServiceClient, as far as the API calls it; `T` is the state behind it.
pub record AuthClient (T : Type 0) : Type 0 where
  pub register_call : (username password : String) → T → Call RegisterResponse × T
  pub login_call : (username password : String) → T → Call LoginResponse × T

-- A row of SELECT id, username, role, created_at; `scans` is false for one that Scan refuses.
pub record Row : Type 0 where
  pub id : ℕ
  pub username : String
  pub role : String
  pub created_at : String
  pub scans : Bool

-- The statements on the table `users`; a number is the count of rows that were changed, and `none`
-- an error.
pub record Roles (T : Type 0) : Type 0 where
  -- SELECT role FROM users WHERE id=?; `none` is no row, or an error
  pub role_of : (id : String) → T → Option String
  -- UPDATE users SET role='banned' WHERE id=? AND role != 'admin'
  pub ban : (id : String) → T → Option ℕ × T
  -- UPDATE users SET role='user' WHERE id=? AND role='banned'
  pub unban : (id : String) → T → Option ℕ × T
  pub list_users : T → Option (List Row)
  pub banned :
      (id : String) (t t' : T) (n : ℕ)
      → ban id t ≡ (some (suc n), t')
      → role_of id t' ≡ some "banned"
  pub spared :
      (id : String) (t : T) → role_of id t ≡ some "admin" → role_of id (ban id t).1 ≡ some "admin"
  pub unbanned :
      (id : String) (t t' : T) (n : ℕ)
      → unban id t ≡ (some (suc n), t')
      → role_of id t' ≡ some "user"
  -- A statement that changes no row leaves the roles.
  pub unchanged :
      (id id' : String) (t t' : T) → ban id t ≡ (some zero, t') → role_of id' t' ≡ role_of id' t

-- What the file system and the clock answer while one file is saved: whether MkdirAll, Create and
-- Copy succeed, and the readings of UnixNano, one for the name and one for each letter.
pub record Disk : Type 0 where
  pub makes_dir : Bool
  pub creates : Bool
  pub copies : Bool
  pub nanos : ℕ
  pub nanos_at : ℕ → ℕ
