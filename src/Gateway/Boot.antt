-- ===== src/Gateway/Boot.antt =====
-- cmd/gateway/main.go: the settings and the connections that main makes before it serves.
use go_chat_x.Common.{
  String, Bool, true, false, Option, none, some, List, [], ◌∷◌, All, ◌≡◌, refl, ap, subst, inl, inr,
  arith, eq_iff, Bool-cases, ◌==◌, if◌then◌else◌,
}
use go_chat_x.World.{Server}
use go_chat_x.Api.Backend.{AuthClient}
use go_chat_x.Api.Account.{new_rest_handler}
use go_chat_x.Gateway.{Deps}
use go_chat_x.Middleware.Cors.{lists}
use go_chat_x.Storage.Connect.{new_mango_store, is_connected}

pub record Settings : Type 0 where
  pub authsvc_addr : String
  pub mongo_uri : String
  pub mongo_db : String
  pub redis_addr : String
  pub gateway_listen : String
  pub gateway_cors : String

-- viper.GetString: the environment comes before the file, and an empty variable counts as unset.
-- The variable is the prefix and the key in capital letters, whose dot stays, since main sets no
-- replacer for it.
unfoldable pub from_file : Option String → (default : String) → String
from_file none default = default
from_file (some value) default = value

unfoldable pub from_env : Option String → (in_file : String) → String
from_env none in_file = in_file
from_env (some value) in_file = if value == "" then in_file else value

unfoldable pub setting :
    (env file : String → Option String) → (variable key default : String) → String
unfolding from_file from_env
setting env file variable key default = from_env (env variable) (from_file (file key) default)

unfoldable pub load_config : (env file : String → Option String) → Settings
unfolding setting
load_config env file = record {
  authsvc_addr = setting env file "GOCHATX_AUTHSVC.ADDR" "authsvc.addr" "localhost:50051";
  mongo_uri = setting env file "GOCHATX_MONGO.URI" "mongo.uri" "mongodb://127.0.0.1:27017";
  mongo_db = setting env file "GOCHATX_MONGO.DB" "mongo.db" "gochatx";
  redis_addr = setting env file "GOCHATX_REDIS.ADDR" "redis.addr" "127.0.0.1:6379";
  gateway_listen = setting env file "GOCHATX_GATEWAY.LISTEN" "gateway.listen" ":8080";
  gateway_cors = setting env file "GOCHATX_GATEWAY.CORS" "gateway.cors" "*";
}

-- What the other processes answer while the gateway starts.
pub record Dials : Type 0 where
  pub auth_dials : Bool
  pub db_opens : Bool
  pub db_pings : Bool
  pub mongo_connects : Option String
  pub mongo_pings : Option String
  pub redis_pings : Bool

pub record Gateway : Type 0 where
  pub srv : Server
  pub secret : String
  pub cors : String
  pub listen : String

-- A dependency with an empty address is left out.
unfoldable pub reached : (addr : String) → Bool → Bool
reached addr answers = if addr == "" then false else answers

unfoldable pub jwt_secret_of : (env : String) → String
jwt_secret_of env = if env == "" then "supersecretkey" else env

-- The interfaces that the WebSocket handler may find nil; main sets the database afterwards.
unfoldable pub new_gateway_server : (has_conn has_mongo has_redis : Bool) → Server
new_gateway_server has_conn has_mongo has_redis = record {
  has_auth = has_conn;
  has_mongo = has_mongo;
  has_redis = has_redis;
  has_db = false;
}

unfoldable pub start_gateway : (settings : Settings) (db_dsn jwt_secret : String) → Dials → Gateway
unfolding reached new_gateway_server
start_gateway settings db_dsn jwt_secret d = record {
  srv =
      record (new_gateway_server (reached settings.authsvc_addr d.auth_dials)
        (reached settings.mongo_uri (is_connected (new_mango_store d.mongo_connects d.mongo_pings)))
        (reached settings.redis_addr d.redis_pings)) {
          has_db = reached db_dsn (if d.db_opens then d.db_pings else false);
        };
  secret = jwt_secret_of jwt_secret;
  cors = settings.gateway_cors;
  listen = settings.gateway_listen;
}

-- The handlers with what main has made.
unfoldable pub with_gateway : {S T R : Type 0} → Gateway → AuthClient T → Deps S T R → Deps S T R
with_gateway g client D = record D {
  client = new_rest_handler g.srv.has_auth client;
  srv = g.srv;
  secret = g.secret;
}

-- The variables that README.md names for the settings.
abbrev pub documented : List String
documented =
    "GOCHATX_AUTHSVC_ADDR" ∷ "GOCHATX_MONGO_URI" ∷ "GOCHATX_MONGO_DB" ∷ "GOCHATX_REDIS_ADDR"
    ∷ "GOCHATX_GATEWAY_LISTEN" ∷ "GOCHATX_GATEWAY_CORS" ∷ []

-- The environment with one more variable.
unfoldable pub with_env : (name value : String) → (String → Option String) → String → Option String
with_env name value env n = if n == name then some value else env n

-- The variables that the settings do read.
abbrev variables : List String
variables =
    "GOCHATX_AUTHSVC.ADDR" ∷ "GOCHATX_MONGO.URI" ∷ "GOCHATX_MONGO.DB" ∷ "GOCHATX_REDIS.ADDR"
    ∷ "GOCHATX_GATEWAY.LISTEN" ∷ "GOCHATX_GATEWAY.CORS" ∷ []

with_env-other :
    (name value variable : String) (env : String → Option String)
    → (variable == name) ≡ false
    → with_env name value env variable ≡ env variable
unfolding with_env
with_env-other name value variable env other = rw other refl

setting-with_env :
    (env file : String → Option String) (name value variable key default : String)
    → (variable == name) ≡ false
    → setting (with_env name value env) file variable key default
      ≡ setting env file variable key default
unfolding setting
setting-with_env env file name value variable key default other =
    ap (λ (o : Option String). from_env o (from_file (file key) default))
      (with_env-other name value variable env other)

-- A variable that is not read changes nothing.
unread :
    (env file : String → Option String) (name value : String)
    → lists name variables ≡ false
    → load_config (with_env name value env) file ≡ load_config env file
unfolding load_config lists
unread env file name value unlisted =
    rw
      (
        same "GOCHATX_AUTHSVC.ADDR" "authsvc.addr" "localhost:50051" (ground (arith, unlisted)),
        same "GOCHATX_MONGO.URI" "mongo.uri" "mongodb://127.0.0.1:27017" (ground (arith, unlisted)),
        same "GOCHATX_MONGO.DB" "mongo.db" "gochatx" (ground (arith, unlisted)),
        same "GOCHATX_REDIS.ADDR" "redis.addr" "127.0.0.1:6379" (ground (arith, unlisted)),
        same "GOCHATX_GATEWAY.LISTEN" "gateway.listen" ":8080" (ground (arith, unlisted)),
        same "GOCHATX_GATEWAY.CORS" "gateway.cors" "*" (ground (arith, unlisted)),
      )
      refl
  where
    same :
        (variable key default : String)
        → (variable == name) ≡ false
        → setting (with_env name value env) file variable key default
          ≡ setting env file variable key default
    same variable key default other =
        setting-with_env env file name value variable key default other

lists-All :
    (P : String → Type 0) (e : String) (ds : List String) → lists e ds ≡ true → All P ds → P e
unfolding lists
lists-All P e [] listed all = absurd (ground (arith, listed))
lists-All P e (d ∷ ds) listed all = elim (Bool-cases (d == e)) [
  | inl same ↦ subst P ((eq_iff d e).0 same) all.0
  | inr other ↦ lists-All P e ds (rw other at listed) all.1
]

-- The environment variables that README.md and docker-compose.yml name for the settings of the
-- gateway change none of them.
pub load_config-documented :
    (env file : String → Option String) (name value : String)
    → lists name documented ≡ true
    → load_config (with_env name value env) file ≡ load_config env file
unfolding lists
load_config-documented env file name value listed = unread env file name value (
    lists-All (λ n. lists n variables ≡ false) name documented listed
      (refl, (refl, (refl, (refl, (refl, (refl, tt)))))))
