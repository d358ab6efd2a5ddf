-- ===== src/Api/Admin/Entry.antt =====
-- A ban by the REST API keeps the user out of the WebSocket handler, which reads the same table.
use go_chat_x.Common.{ℕ, suc, ◌≤◌, String, ◌≡◌, ◌∙◌, true, false, some}
use go_chat_x.Go.{done}
use go_chat_x.Protocol.{WsMsg, message, auth, kind}
use go_chat_x.Http.{Request, Body, json_response}
use go_chat_x.Storage.Documents.{Collection}
use go_chat_x.World.{Server, Session, Env}
use go_chat_x.Ws.Auth.{max_auth_attempts, accepted}
use go_chat_x.Ws.Loop.{on_frame}
use go_chat_x.Ws.Limits.{one_more, turned_away, on_frame-banned}
use go_chat_x.Site.{Site}
use go_chat_x.Api.Backend.{Roles}
use go_chat_x.Api.Admin.{admin_ban_user}
use go_chat_x.Api.Admin.Bans.{admin_ban_user-ok}

-- After a ban that is answered with status 200, an authentication with a valid token of that user
-- is turned away, if there is an auth service, the connection is within its attempts and its
-- channel is open, and MySQL still holds the role that the ban has left.
pub admin_ban_user-on_frame :
    {T R : Type 0} (C : Collection) (roles : Roles T) (srv : Server) (r : Request)
    (s s' : Site C.State T R) (b : Body) (id : String) (env : Env) (k : ℕ) (m : WsMsg)
    (sess : Session)
    → r.user_id ≡ some id
    → admin_ban_user roles srv.has_db r s ≡ (done (json_response 200 b), s')
    → srv.has_auth ≡ true
    → srv.has_db ≡ true
    → kind m.type ≡ auth
    → suc sess.auth_attempts ≤ max_auth_attempts
    → accepted (env.validate m.token) ≡ some id
    → env.role_of id ≡ roles.role_of id s'.table
    → (s'.world.hub.chan k).closed ≡ false
    → on_frame C srv env k (message m) sess s'.world
      ≡ (done (one_more sess), turned_away k "account banned" s'.world)
admin_ban_user-on_frame C roles srv r s s' b id env k m sess named e service db is_auth few valid
      same_table is_open =
    on_frame-banned C srv env k m sess s'.world id service db is_auth few valid
      (same_table ∙ (admin_ban_user-ok roles srv.has_db r s s' b id named e).0) is_open
