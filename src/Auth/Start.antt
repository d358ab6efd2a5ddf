-- ===== src/Auth/Start.antt =====
-- cmd/authsvc/main.go: what the auth service needs to serve. `env` is os.Getenv.
use go_chat_x.Common.{String, Bool, ◌==◌, if◌then◌else◌}

unfoldable pub get_env_or_default : (env : String → String) → (key def : String) → String
get_env_or_default env key def = if env key == "" then def else env key

-- Whether MySQL opens, answers a ping and runs CREATE TABLE, Redis answers a ping, and the address
-- can be listened on.
pub record AuthDials : Type 0 where
  pub db_opens : Bool
  pub db_pings : Bool
  pub db_migrates : Bool
  pub redis_pings : Bool
  pub listens : Bool

-- The process has exited with status 1, after the message, or serves.
pub data AuthStart : Type 0 where
  exited : (message : String) → AuthStart
  serving : (dsn redis_addr listen_addr jwt_secret : String) → AuthStart

unfoldable pub or_exit : (ok : Bool) → (message : String) → AuthStart → AuthStart
or_exit ok message rest = if ok then rest else exited message

unfoldable pub migrate : AuthDials → AuthStart → AuthStart
unfolding or_exit
migrate d rest = or_exit d.db_migrates "failed to migrate users table" rest

unfoldable pub init_db : AuthDials → AuthStart → AuthStart
unfolding or_exit migrate
init_db d rest =
    or_exit d.db_opens "failed to open database"
      (or_exit d.db_pings "failed to ping database" (migrate d rest))

unfoldable pub init_redis : AuthDials → AuthStart → AuthStart
unfolding or_exit
init_redis d rest = or_exit d.redis_pings "failed to connect to redis" rest

unfoldable pub start_auth : (env : String → String) → AuthDials → AuthStart
unfolding get_env_or_default init_db init_redis or_exit
start_auth env d =
    if env "DB_DSN" == ""
    then exited "DB_DSN environment variable is required"
    else if env "JWT_SECRET" == ""
    then exited "JWT_SECRET environment variable is required"
    else init_db d (
        init_redis d (
          or_exit d.listens "failed to listen" (
            serving (env "DB_DSN") (get_env_or_default env "REDIS_ADDR" "127.0.0.1:6379")
              (get_env_or_default env "LISTEN_ADDR" ":50051") (env "JWT_SECRET"))))
