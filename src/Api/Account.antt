-- ===== src/Api/Account.antt =====
-- internal/gateway/api.go: Register and Login.
use go_chat_x.Common.{Bool, ◌||◌, Option, none, some, ◌==◌, if◌then◌else◌}
use go_chat_x.Go.{Go, done, pure}
use go_chat_x.Auth.{RegisterResponse, LoginResponse}
use go_chat_x.Http.{Credentials, Request, message, session, Response, json_response, refuse}
use go_chat_x.Site.{Site}
use go_chat_x.Api.Backend.{Call, returned, failed, AuthClient}

-- The client that the handlers call, if there is a connection to the auth service.
unfoldable pub new_rest_handler :
    {T : Type 0} → (has_conn : Bool) → AuthClient T → Option (AuthClient T)
new_rest_handler has_conn client = if has_conn then some client else none

-- `err != nil || req.Username == "" || req.Password == ""`
unfoldable pub full_credentials : Option Credentials → Option Credentials
full_credentials none = none
full_credentials (some c) = if (c.username == "") || (c.password == "") then none else some c

unfoldable pub registered_reply : Call RegisterResponse → Response
registered_reply (failed text) = refuse 500 text
registered_reply (returned r) = json_response 200 (message r.success r.message)

unfoldable pub login_reply : Call LoginResponse → Response
login_reply (failed text) = refuse 500 text
login_reply (returned r) = json_response 200 (session r.success r.message r.token)

module _ {S T R : Type 0} where
  unfoldable pub call_register :
      Option (AuthClient T) → Option Credentials → Go (Site S T R) Response
  call_register client none s = (done (refuse 400 "username and password required"), s)
  call_register none (some c) s = (done (refuse 503 "auth service unavailable"), s)
  call_register (some client) (some c) s =
      let (r, t) = client.register_call c.username c.password s.table in
      (done (registered_reply r), record s { table = t })

  unfoldable pub rest_register : Option (AuthClient T) → Request → Go (Site S T R) Response
  rest_register client r =
      if r.method == "POST"
      then call_register client (full_credentials r.credentials)
      else pure (refuse 405 "method not allowed")

  unfoldable pub call_login : Option (AuthClient T) → Option Credentials → Go (Site S T R) Response
  call_login client none s = (done (refuse 400 "username and password required"), s)
  call_login none (some c) s = (done (refuse 503 "auth service unavailable"), s)
  call_login (some client) (some c) s =
      let (r, t) = client.login_call c.username c.password s.table in
      (done (login_reply r), record s { table = t })

  unfoldable pub rest_login : Option (AuthClient T) → Request → Go (Site S T R) Response
  rest_login client r =
      if r.method == "POST"
      then call_login client (full_credentials r.credentials)
      else pure (refuse 405 "method not allowed")
