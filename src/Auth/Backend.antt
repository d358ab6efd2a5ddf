-- ===== src/Auth/Backend.antt =====
-- What the auth service uses of other packages, as they document it: MySQL through database/sql,
-- bcrypt, and golang-jwt.
use go_chat_x.Common.{ℕ, ◌<◌, String, ◌≡◌, ◌⊎◌, Bool, true, Option, some}

-- A row of the table `users`.
pub record User : Type 0 where
  pub id : String
  pub username : String
  pub password : String
  pub role : String

-- The result of an INSERT: done, error 1062 (a unique key is taken), or any other error.
pub data Insert : Type 0 where
  inserted duplicate failed : Insert

-- What a SELECT of one row gives: an error, no row, or the row.
pub data Selected : Type 0 where
  broken : Selected
  no_row : Selected
  row : User → Selected

pub record Users : Type 1 where
  pub State : Type 0
  -- INSERT INTO users (username, password, role) VALUES (?, ?, 'user')
  pub insert_user : (username password : String) → State → Insert × State
  -- SELECT id, password, role FROM users WHERE username=?
  pub select_user : (username : String) → State → Selected
  -- A row that was inserted is there, with its default role.
  pub inserted_row :
      (u pw : String) (s s' : State)
      → insert_user u pw s ≡ (inserted, s')
      → (id : String) × ((select_user u s' ≡ broken)
          ⊎ (select_user u s'
              ≡ row (record { id = id; username = u; password = pw; role = "user" })))

-- GenerateFromPassword, for one salt, and CompareHashAndPassword.
pub record Crypt : Type 0 where
  pub generate : (salt : ℕ) → String → Option String
  pub compare : (hash password : String) → Bool
  pub generated : (salt : ℕ) (p h : String) → generate salt p ≡ some h → compare h p ≡ true

-- Times are in seconds.
pub record Claims : Type 0 where
  pub user_id : String
  pub role : String
  pub issuer : String
  pub subject : String
  pub expires_at : ℕ
  pub issued_at : ℕ

-- The signing method that the header of a token names.
pub data Method : Type 0 where
  hmac other_method : Method

-- SignedString with HS256, and ParseWithClaims for a key function at a time; its result is the
-- claims and the field `Valid`.
pub record Tokens : Type 0 where
  pub sign : (secret : String) → Claims → Option String
  pub parse : (Method → Option String) → (now : ℕ) → String → Option (Claims × Bool)
  pub signed :
      (secret : String) (c : Claims) (t : String) (key : Method → Option String) (now : ℕ)
      → sign secret c ≡ some t
      → key hmac ≡ some secret
      → now < c.expires_at
      → parse key now t ≡ some (c, true)
