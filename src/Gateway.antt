-- ===== src/Gateway.antt =====
-- cmd/gateway/main.go: the handlers behind their middlewares and the paths that they serve. A
-- request runs whole; the frames of the connections that HandleWS takes over are steps of System.
pub mod Answers
pub mod Boot
pub mod Secrets
pub mod Session
pub mod Frames
pub mod Routes
pub mod Guards
pub mod Refused
pub mod Files
use Prim.Native.Char.{Char}
use Prim.Native.String.{len, slice}
use text.Mathlib.Text.{starts_with}
use go_chat_x.Common.{ℕ, String, Bool, true, false, Option, none, some, ◌==◌, if◌then◌else◌}
use go_chat_x.Go.{Go, done, pure}
use go_chat_x.Auth.Backend.{Tokens}
use go_chat_x.Middleware.{Outcome, answered, next, auth_middleware, admin_middleware}
use go_chat_x.Middleware.Limiter.{SortedSets, Verdict, passed, limited, limit, ip_key, login_key}
use go_chat_x.Middleware.Cors.{allow_origin, is_preflight}
use go_chat_x.Http.{Request, Body, nothing, Response, refuse}
use go_chat_x.World.{Server}
use go_chat_x.Site.{Site}
use go_chat_x.Api.Backend.{AuthClient, Roles, Disk}
use go_chat_x.Api.Account.{rest_register, rest_login}
use go_chat_x.Api.Status.{Pings, health_of, online_users, admin_stats}
use go_chat_x.Api.Admin.{admin_users, admin_ban_user, admin_unban_user}
use go_chat_x.Api.Upload.{upload}

-- The patterns given to ServeMux, in their order in main; `moved` is its redirect of a path that
-- lacks the last slash of a pattern.
pub data Route : Type 0 where
  ws : Route
  health : Route
  login : Route
  register : Route
  users_online : Route
  upload_file : Route
  uploads : Route
  stats : Route
  users : Route
  ban : Route
  unban : Route
  web : Route
  moved : Route

-- The pattern that a clean path matches, the longest of several.
unfoldable pub route : (path : String) → Route
route path =
    if path == "/ws"
    then ws
    else if path == "/health"
    then health
    else if path == "/api/login"
    then login
    else if path == "/api/register"
    then register
    else if path == "/api/users/online"
    then users_online
    else if path == "/api/upload"
    then upload_file
    else if path == "/api/admin/stats"
    then stats
    else if path == "/api/admin/users"
    then users
    else if path == "/api/admin/users/ban"
    then ban
    else if path == "/api/admin/users/unban"
    then unban
    else if path == "/uploads"
    then moved
    else if starts_with path "/uploads/"
    then uploads
    else web

-- http.StripPrefix of "/uploads/", for a path with that prefix
unfoldable pub without_uploads : String → String
without_uploads path = slice path 9 (len path)

-- What the handler of one request reads: the clock in milliseconds and in seconds, the pings of
-- Health, and the disk.
pub record Reading : Type 0 where
  pub millis : ℕ
  pub seconds : ℕ
  pub pings : Pings
  pub disk : Disk

module _ {S T R : Type 0} where
  unfoldable pub guarded_by : Outcome → Go (Site S T R) Response → Go (Site S T R) Response
  guarded_by (answered status reason) handler = pure (refuse status reason)
  guarded_by (next user_id role) handler = handler

  unfoldable pub unless_limited : Verdict → Go (Site S T R) Response → Go (Site S T R) Response
  unless_limited passed handler = handler
  unless_limited limited handler = pure (refuse 429 "rate limit exceeded, try again later")

-- What the handlers and middlewares are made with. `handle_ws` is HandleWS, `file_server` the answer
-- of http.FileServer for a path in a directory, and `redirect` that of ServeMux.
pub record Deps (S T R : Type 0) : Type 0 where
  pub tokens : Tokens
  pub client : Option (AuthClient T)
  pub roles : Roles T
  pub lower : Char → Char
  pub handle_ws : Request → Go (Site S T R) Response
  pub file_server : (dir path : String) → Response
  pub redirect : Response
  pub srv : Server
  pub secret : String

module _ {S T : Type 0} (R : SortedSets) (D : Deps S T R.State) where
  open D use {tokens, client, roles, lower, handle_ws, file_server, redirect, srv, secret}

  -- rl.Limit, with a window of a minute
  unfoldable pub rate_limited :
      (key_of : Request → String) (max : ℕ) (now : ℕ)
      → Request
      → Go (Site S T R.State) Response
      → Go (Site S T R.State) Response
  rate_limited key_of max now r handler s =
      let (v, l) = limit R srv.has_redis key_of max 60000 now r s.limits in
      unless_limited v handler (record s { limits = l })

  unfoldable pub only_user :
      Reading → Request → Go (Site S T R.State) Response → Go (Site S T R.State) Response
  only_user x r handler =
      guarded_by (auth_middleware tokens secret x.seconds r.authorization) handler

  unfoldable pub only_admin :
      Reading → Request → Go (Site S T R.State) Response → Go (Site S T R.State) Response
  only_admin x r handler =
      guarded_by (admin_middleware tokens secret x.seconds r.authorization) handler

  unfoldable pub serve_route : Route → Reading → Request → Go (Site S T R.State) Response
  serve_route ws x r = handle_ws r
  serve_route health x r = pure (health_of srv x.pings)
  serve_route login x r = rate_limited login_key 10 x.millis r (rest_login client r)
  serve_route register x r = rate_limited login_key 5 x.millis r (rest_register client r)
  serve_route users_online x r = rate_limited ip_key 30 x.millis r (online_users r)
  serve_route upload_file x r = only_user x r (upload lower x.disk r)
  serve_route uploads x r = pure (file_server "./uploads" (without_uploads r.path))
  serve_route stats x r = only_admin x r admin_stats
  serve_route users x r = only_admin x r (admin_users roles srv.has_db)
  serve_route ban x r = only_admin x r (admin_ban_user roles srv.has_db r)
  serve_route unban x r = only_admin x r (admin_unban_user roles srv.has_db r)
  serve_route web x r = pure (file_server "./web" r.path)
  serve_route moved x r = pure redirect

  -- corsMiddleware(mux): a preflight request ends here.
  unfoldable pub serve : Reading → Request → Go (Site S T R.State) Response
  serve x r =
      if is_preflight r
      then pure (record { status = 204; body = nothing })
      else serve_route (route r.path) x r
