-- ===== src/Gateway/Guards.antt =====
-- Which requests may change what.
use go_chat_x.Common.{◌≡◌, ◌≢◌, ◌⊎◌, refl, inl, inr, Bool-cases}
use go_chat_x.Go.{pure}
use go_chat_x.Middleware.Limiter.{SortedSets}
use go_chat_x.Middleware.Cors.{is_preflight}
use go_chat_x.Http.{Request}
use go_chat_x.Site.{Site}
use go_chat_x.Gateway.{Deps, ws, login, register, upload_file, ban, unban, route, Reading, serve}
use go_chat_x.Gateway.Routes.{
  IsUser, IsAdmin, serve_route-world, serve_route-files, serve_route-table,
}

module _ {S T : Type 0} (R : SortedSets) (D : Deps S T R.State) where
  open D use {tokens, client, roles, lower, handle_ws, file_server, redirect, srv, secret}

  -- Who may change the chat, the files and the table of users.
  unfoldable pub AreGuarded : Reading → Request → Site S T R.State → Site S T R.State → Type 0
  unfolding IsUser IsAdmin
  AreGuarded x r s s' =
      ((s'.world ≡ s.world) ⊎ ((route r.path ≡ ban) × IsAdmin R D x r))
      × ((s'.files ≡ s.files) ⊎ ((route r.path ≡ upload_file) × IsUser R D x r))
      × ((s'.table ≡ s.table)
          ⊎ ((route r.path ≡ login)
              ⊎ ((route r.path ≡ register)
                  ⊎ (((route r.path ≡ ban) ⊎ (route r.path ≡ unban)) × IsAdmin R D x r))))

  -- But for a request that HandleWS takes over, a request changes the chat only as a ban with the
  -- token of an admin, and the files only as an upload with a valid token; it changes the table of
  -- users only as a login, a registration, or a ban or an unban with the token of an admin.
  pub serve-AreGuarded :
      (x : Reading) (r : Request) (s : Site S T R.State)
      → route r.path ≢ ws
      → AreGuarded x r s (serve R D x r s).1
  unfolding serve AreGuarded pure
  serve-AreGuarded x r s other = elim (Bool-cases (is_preflight r)) [
    | inl preflight ↦ rw preflight (inl refl, inl refl, inl refl)
    | inr own ↦ rw own (
      serve_route-world R D (route r.path) x r s other,
      serve_route-files R D (route r.path) x r s other,
      serve_route-table R D (route r.path) x r s other,
    )
  ]
