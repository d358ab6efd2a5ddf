-- ===== src/Gateway/Session.antt =====
-- A session over both processes: a login with the auth service, then an upload to the gateway.
use Prim.Native.String.{◌++◌}
use go_chat_x.Common.{ℕ, ◌+◌, ◌<◌, String, ◌≡◌, refl, ap, ◌∙◌, false, List}
use go_chat_x.World.{RedisCommand}
use go_chat_x.Auth.{logged_in_with, login}
use go_chat_x.Auth.Backend.{Users, Crypt}
use go_chat_x.Auth.Start.{AuthDials, serving, start_auth}
use go_chat_x.Middleware.{next, auth_middleware}
use go_chat_x.Middleware.Access.{login-auth_middleware}
use go_chat_x.Middleware.Limiter.{SortedSets}
use go_chat_x.Middleware.Cors.{is_preflight}
use go_chat_x.Http.{Request}
use go_chat_x.Site.{Site}
use go_chat_x.Api.Upload.{upload}
use go_chat_x.Gateway.{Deps, Reading, upload_file, route, guarded_by, only_user, serve_route, serve}
use go_chat_x.Gateway.Boot.{Settings, Dials, start_gateway, with_gateway}
use go_chat_x.Api.Backend.{AuthClient}
use go_chat_x.Gateway.Secrets.{start_auth-serving}

module _ {S T : Type 0} (R : SortedSets) (D : Deps S T R.State) where
  -- If the auth service serves, and the gateway was started with the same JWT_SECRET, then for 24
  -- hours after a login its token gets an upload through the mux to the handler.
  pub login-upload :
      (env : String → String) (a : AuthDials) (dsn redis listen secret : String)
      (settings : Settings) (db_dsn : String) (d : Dials) (service : AuthClient T) (U : Users)
      (B : Crypt) (now : ℕ) (u p t : String) (users : U.State) (cs : List RedisCommand)
      (x : Reading) (r : Request) (s : Site S T R.State)
      → start_auth env a ≡ serving dsn redis listen secret
      → login U B D.tokens secret now u p users ≡ (logged_in_with t, cs)
      → x.seconds < now + 86400
      → is_preflight r ≡ false
      → route r.path ≡ upload_file
      → r.authorization ≡ "Bearer " ++ t
      → serve R (with_gateway (start_gateway settings db_dsn (env "JWT_SECRET") d) service D) x r s
        ≡ upload D.lower x.disk r s
  unfolding serve serve_route only_user guarded_by with_gateway
  login-upload env a dsn redis listen secret settings db_dsn d service U B now u p t users cs x r s
        starts logs_in soon own to_upload bearer =
      let (_, _, _, _, _, _, _, agree) =
        start_auth-serving env a dsn redis listen secret settings db_dsn d starts in
      let (user, _, passes) =
        login-auth_middleware U B D.tokens secret now x.seconds u p t users cs logs_in soon in
      let lets_in : auth_middleware D.tokens
            (start_gateway settings db_dsn (env "JWT_SECRET") d).secret x.seconds r.authorization
          ≡ next user.id user.role =
        ap (λ (k : String). auth_middleware D.tokens k x.seconds r.authorization) agree
        ∙ ap (auth_middleware D.tokens secret x.seconds) bearer
        ∙ passes in
      rw (own, to_upload, lets_in) refl
