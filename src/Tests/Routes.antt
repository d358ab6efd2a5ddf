-- ===== src/Tests/Routes.antt =====
-- A request of an admin, over the mux of the gateway.
use go_chat_x.Common.{
  ℕ, ◌<◌, String, ◌≡◌, ◌≢◌, ◌⊎◌, refl, Bool, true, false, Option, none, some, List, [], ◌∷◌, ◌==◌,
  arith, if◌then◌else◌,
}
use Prim.Native.String.{◌++◌}
use mathlib.Core.List.{◌++◌ as ◌⧺◌}
use go_chat_x.Api.Answers.{Answers}
use go_chat_x.Gateway.Answers.{serve-answers}
use go_chat_x.Gateway.Files.{upload-served}
use go_chat_x.Middleware.Cors.{is_preflight}
use go_chat_x.Api.Upload.{file_name, upload}
use go_chat_x.Api.Upload.Saved.{checked_type}
use go_chat_x.GoMap.{GoMap}
use go_chat_x.Go.{Go, done}
use go_chat_x.Auth.Backend.{Claims, Method, hmac, Tokens}
use go_chat_x.Middleware.{next, admin_middleware}
use go_chat_x.Http.{Request, Response, nothing, file_of, switched, refuse, uploaded, json_response}
use go_chat_x.Storage.Documents.{Document}
use go_chat_x.Api.Backend.{AuthClient}
use go_chat_x.Site.{Site}
use go_chat_x.Gateway.{Deps, Reading, ws, ban, route, serve}
use go_chat_x.Gateway.Guards.{AreGuarded, serve-AreGuarded}
use go_chat_x.Gateway.Refused.{is_admin_route, serve-admin}
use go_chat_x.Tests.Scene.{service, lobby}
use go_chat_x.Tests.Backends.{sets, role_table, Cell}
use go_chat_x.Tests.Bans.{request, roles, site_of}
use go_chat_x.Tests.Uploads.{as_it_is, disk, posted, site, png}

abbrev pub root_claims : Claims
root_claims = record {
  user_id = "root";
  role = "admin";
  issuer = "gochatx-auth";
  subject = "root";
  expires_at = 86500;
  issued_at = 100;
}

abbrev pub parse_root : (Method → Option String) → ℕ → String → Option (Claims × Bool)
parse_root key now t = if t == "root" then some (root_claims, true) else none

-- Signs nothing, and knows one token.
pub unsigned :
    (secret : String) (c : Claims) (t : String) (key : Method → Option String) (now : ℕ)
    → ◌≡◌ {A = Option String} none (some t)
    → key hmac ≡ some secret
    → now < c.expires_at
    → parse_root key now t ≡ some (c, true)
unsigned secret c t key now e k soon = cc

abbrev pub verifier : Tokens
verifier = record { sign = λ secret c. none; parse = parse_root; signed = unsigned }

abbrev pub reading : Reading
reading = record {
  millis = 1000;
  seconds = 1;
  pings = record { mongo = true; redis = true };
  disk = disk;
}

abbrev pub handed_over : Request → Go (Site (List Document) (GoMap String) (String → Cell)) Response
handed_over r s = (done (record { status = 101; body = switched }), s)

abbrev pub serves_file : (dir path : String) → Response
serves_file dir path = record { status = 200; body = file_of path }

abbrev pub to_slash : Response
to_slash = record { status = 301; body = nothing }

abbrev pub no_client : Option (AuthClient (GoMap String))
no_client = none

abbrev pub deps : Deps (List Document) (GoMap String) (String → Cell)
deps = record {
  tokens = verifier;
  client = no_client;
  roles = role_table;
  lower = as_it_is;
  handle_ws = handed_over;
  file_server = serves_file;
  redirect = to_slash;
  srv = service;
  secret = "s3cret";
}

abbrev pub bans : Request
bans = request "/api/admin/users/ban" (some "ann")

is_ban : route bans.path ≡ ban
unfolding route
is_ban = refl

ban-IsOther : route bans.path ≢ ws
unfolding route
ban-IsOther e = absurd (ground arith)

ban_of_admin : is_admin_route (route bans.path) ≡ true
unfolding is_admin_route route
ban_of_admin = refl

serve-AreGuarded_example :
    AreGuarded {S = List Document} sets deps reading bans
      (site_of roles lobby)
      (serve sets deps reading bans (site_of roles lobby)).1
serve-AreGuarded_example = serve-AreGuarded sets deps reading bans (site_of roles lobby) ban-IsOther

serve-admin_example :
    ((u : String) × (admin_middleware verifier "s3cret" 1 bans.authorization ≡ next u "admin"))
    ⊎ ((serve sets deps reading bans (site_of roles lobby)
          ≡ (done (record { status = 204; body = nothing }), site_of roles lobby))
        ⊎ ((status : ℕ) × (reason : String) × (serve sets deps reading bans (site_of roles lobby)
              ≡ (done (refuse status reason), site_of roles lobby))))
serve-admin_example = serve-admin sets deps reading bans (site_of roles lobby) ban_of_admin

-- The page that shows the picture.
abbrev shows : Request
shows =
    record (request ("/uploads/" ++ file_name 17 (λ i. i) (checked_type as_it_is "a/cat.png"))
      none) { method = "GET" }

own_path : is_preflight shows ≡ false
unfolding is_preflight
own_path = refl

upload-served_example :
    (s' : Site (List Document) (GoMap String) (String → Cell)) × (upload as_it_is disk posted site
      ≡ (done (json_response 200 (uploaded shows.path "a/cat.png" 100)), s'))
    × (s'.files ≡ [] ⧺ file_name 17 (λ i. i) (checked_type as_it_is "a/cat.png") ∷ [])
    × (serve sets deps reading shows s' ≡ (
      done (serves_file "./uploads" (file_name 17 (λ i. i) (checked_type as_it_is "a/cat.png"))),
      s',
    ))
upload-served_example =
    upload-served sets deps disk reading posted shows site "a/cat.png" 100 refl refl png refl refl
      refl own_path refl

hands_over : (r : Request) → Answers (handed_over r)
hands_over r = record { at = λ s p. (record { status = 101; body = switched }, refl, tt) }

serve-answers_example : (a : Response) × ((serve sets deps reading bans site).0 ≡ done a)
serve-answers_example = serve-answers sets deps hands_over reading bans site
