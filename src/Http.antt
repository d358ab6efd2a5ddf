-- ===== src/Http.antt =====
-- The requests and responses of internal/gateway/api.go, as far as its handlers and middlewares
-- read and write them. What json.Decode, ParseMultipartForm and FormFile find in a body is a field
-- of the request.
use go_chat_x.Common.{ℕ, String, Bool, false, Option, List}

pub record Credentials : Type 0 where
  pub username : String
  pub password : String

-- Too large or no multipart form, a form without a field "file", or a file.
pub data Form : Type 0 where
  unreadable : Form
  no_file : Form
  file : (filename : String) (size : ℕ) → Form

-- A missing header is the empty text; `none` is a body that does not decode.
pub record Request : Type 0 where
  pub method : String
  pub path : String
  pub authorization : String
  pub forwarded_for : String
  pub real_ip : String
  pub remote_addr : String
  pub origin : String
  pub credentials : Option Credentials
  pub user_id : Option String
  pub form : Form

pub record UserRow : Type 0 where
  pub id : ℕ
  pub username : String
  pub role : String
  pub created_at : String
  pub is_online : Bool

-- The JSON of a response; `file_of` is a file that http.FileServer answers with, `switched` a
-- connection that HandleWS serves.
pub data Body : Type 0 where
  message : (ok : Bool) (msg : String) → Body
  session : (ok : Bool) (msg token : String) → Body
  online : (users : List String) → Body
  health : (status mongo redis authsvc : String) → Body
  stats :
      (online_users : ℕ) (online_list : List String) (active_rooms : ℕ) (room_list : List String)
      → Body
  users : List UserRow → Body
  uploaded : (url filename : String) (size : ℕ) → Body
  nothing : Body
  file_of : (path : String) → Body
  switched : Body

pub record Response : Type 0 where
  pub status : ℕ
  pub body : Body

-- jsonResponse
unfoldable pub json_response : ℕ → Body → Response
json_response status body = record { status = status; body = body }

abbrev pub refuse : ℕ → String → Response
refuse status msg = record { status = status; body = message false msg }
