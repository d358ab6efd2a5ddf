-- ===== src/Tests/Starts.antt =====
-- Starts of the two processes.
use go_chat_x.Common.{String, ◌≡◌, refl, true, false, none, some, ◌==◌, if◌then◌else◌}
use go_chat_x.Auth.Start.{
  AuthDials, serving, or_exit, init_db, migrate, init_redis, get_env_or_default, start_auth,
}
use go_chat_x.Middleware.Cors.{lists}
use go_chat_x.Gateway.Boot.{
  Settings, Dials, load_config, documented, with_env, load_config-documented,
}

abbrev pub env : String → String
env name = if name == "DB_DSN" then "dsn" else if name == "JWT_SECRET" then "s3cret" else ""

abbrev pub all_answer : AuthDials
all_answer = record {
  db_opens = true;
  db_pings = true;
  db_migrates = true;
  redis_pings = true;
  listens = true;
}

abbrev pub none_answers : Dials
none_answers = record {
  auth_dials = false;
  db_opens = false;
  db_pings = false;
  mongo_connects = some "refused";
  mongo_pings = none;
  redis_pings = false;
}

abbrev pub defaults : Settings
defaults = load_config (λ _. none) (λ _. none)

pub starts : start_auth env all_answer ≡ serving "dsn" "127.0.0.1:6379" ":50051" "s3cret"
unfolding start_auth init_db migrate init_redis or_exit get_env_or_default
starts = refl

names_mongo : lists "GOCHATX_MONGO_URI" documented ≡ true
unfolding lists
names_mongo = refl

load_config-documented_example :
    load_config (with_env "GOCHATX_MONGO_URI" "mongodb://mongodb:27017" (λ _. none)) (λ _. none)
    ≡ load_config (λ _. none) (λ _. none)
load_config-documented_example =
    load_config-documented (λ _. none) (λ _. none) "GOCHATX_MONGO_URI" "mongodb://mongodb:27017"
      names_mongo
