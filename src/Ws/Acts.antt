-- ===== src/Ws/Acts.antt =====
-- What a frame means for who is online and who is in which room.
pub mod Turn
pub mod Rooms
pub mod Frames
use go_chat_x.Common.{
  ℕ, suc, String, Bool, true, false, ◌&&◌, Option, none, some, ltb, ◌==◌, if◌then◌else◌,
}
use go_chat_x.Protocol.{WsMsg, Frame, malformed, message, Kind, auth, join, leave, kind}
use go_chat_x.Hub.{Client}
use go_chat_x.Hub.View.{Chat, sign_in, enter, exit, vanish}
use go_chat_x.World.{Server, Session, Env}
use go_chat_x.Ws.Auth.{max_auth_attempts, accepted, has_role}

-- The user that a token signs in.
unfoldable pub unless_banned : Server → Env → Option String → Option String
unless_banned srv env none = none
unless_banned srv env (some u) =
    if srv.has_db && has_role "banned" (env.role_of u) then none else some u

-- With an auth service: within the attempts, the user of a valid token.
unfoldable pub service_user : Server → Env → String → Session → Option String
unfolding unless_banned
service_user srv env token sess =
    if ltb max_auth_attempts (suc sess.auth_attempts)
    then none
    else unless_banned srv env (accepted (env.validate token))

-- In dev mode the token is the user.
unfoldable pub dev_user : String → Option String
dev_user token = if token == "" then none else some token

unfoldable pub signs_in : Server → Env → String → Session → Option String
unfolding service_user dev_user
signs_in srv env token sess =
    if srv.has_auth then service_user srv env token sess else dev_user token

unfoldable pub signed_in : ℕ → Option String → Chat → Chat
unfolding sign_in
signed_in k none c = c
signed_in k (some u) c = sign_in u k c

unfoldable pub entered : String → Option Client → Chat → Chat
unfolding enter
entered r none c = c
entered r (some me) c = enter r me.user_id me.conn c

unfoldable pub exited : String → Option Client → Chat → Chat
unfolding exit
exited r none c = c
exited r (some me) c = exit r me.user_id c

unfoldable pub gone : Option Client → Chat → Chat
unfolding vanish
gone none c = c
gone (some me) c = vanish me.user_id c

module _ (srv : Server) (env : Env) (k : ℕ) where
  unfoldable pub kind_action : Kind → WsMsg → Session → Chat → Chat
  unfolding signs_in signed_in entered exited
  kind_action auth m sess c = signed_in k (signs_in srv env m.token sess) c
  kind_action join m sess c = entered m.room_id sess.me c
  kind_action leave m sess c = exited m.room_id sess.me c
  kind_action _ m sess c = c

  unfoldable pub frame_action : Frame → Session → Chat → Chat
  unfolding kind_action kind
  frame_action malformed sess c = c
  frame_action (message m) sess c = kind_action (kind m.type) m sess c
