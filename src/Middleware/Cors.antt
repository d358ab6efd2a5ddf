-- ===== src/Middleware/Cors.antt =====
-- internal/gateway/middleware.go: CORSMiddleware. The headers on methods, on headers and on the age
-- are constants that are set together with the origin.
use go_chat_x.Common.{
  String, Bool, true, false, ◌||◌, Option, none, some, List, [], ◌∷◌, map, ◌==◌, if◌then◌else◌,
}
use go_chat_x.Text.Parts.{split_commas, trim_space}
use go_chat_x.Http.{Request}

unfoldable pub lists : String → List String → Bool
lists origin [] = false
lists origin (o ∷ os) = if o == origin then true else lists origin os

unfoldable pub origins_of : (allowed : String) → List String
origins_of allowed = map trim_space (split_commas allowed)

unfoldable pub allows : (allowed origin : String) → Bool
unfolding lists origins_of
allows allowed origin = (allowed == "*") || lists origin (origins_of allowed)

-- The value of Access-Control-Allow-Origin, where it is set.
unfoldable pub allow_origin : (allowed : String) → Request → Option String
unfolding allows
allow_origin allowed r = if allows allowed r.origin then some r.origin else none

-- Whether the middleware answers itself, with status 204.
unfoldable pub is_preflight : Request → Bool
is_preflight r = r.method == "OPTIONS"
