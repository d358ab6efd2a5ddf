-- ===== src/Api/Status.antt =====
-- internal/gateway/api.go: OnlineUsers, Health and AdminStats.
use go_chat_x.Common.{String, Bool, true, false, length, ◌==◌, if◌then◌else◌}
use go_chat_x.Go.{Go, pure, ◌>>=◌}
use go_chat_x.Http.{Request, online, health, stats, Response, json_response, refuse}
use go_chat_x.Hub.{Hub, get_online_users, get_room_count, get_room_ids}
use go_chat_x.World.{Server}
use go_chat_x.Site.{Site, on_chat}

-- Whether MongoDB and Redis answer a Ping.
pub record Pings : Type 0 where
  pub mongo : Bool
  pub redis : Bool

unfoldable pub state_of : (there answers : Bool) → String
state_of there answers =
    if there then if answers then "connected" else "disconnected" else "disabled"

unfoldable pub is_lost : (there answers : Bool) → Bool
is_lost there answers = if there then if answers then false else true else false

unfoldable pub is_degraded : Server → Pings → Bool
unfolding is_lost
is_degraded srv p = if is_lost srv.has_mongo p.mongo then true else is_lost srv.has_redis p.redis

unfoldable pub health_of : Server → Pings → Response
unfolding state_of is_degraded
health_of srv p = json_response (if is_degraded srv p then 503 else 200) (
    health (if is_degraded srv p then "degraded" else "ok") (state_of srv.has_mongo p.mongo)
      (state_of srv.has_redis p.redis) (if srv.has_auth then "configured" else "disabled"))

unfoldable pub list_online : Go Hub Response
list_online = get_online_users >>= λ users. pure (json_response 200 (online users))

unfoldable pub collect_stats : Go Hub Response
collect_stats = get_online_users >>= λ counted. get_online_users >>= λ users.
    get_room_count >>= λ rooms.
    get_room_ids >>= λ ids. pure (json_response 200 (stats (length counted) users rooms ids))

module _ {S T R : Type 0} where
  unfoldable pub online_users : Request → Go (Site S T R) Response
  online_users r =
      if r.method == "GET" then on_chat list_online else pure (refuse 405 "method not allowed")

  unfoldable pub admin_stats : Go (Site S T R) Response
  admin_stats = on_chat collect_stats
