-- ===== src/Gateway/Refused.antt =====
-- Requests that a middleware answers in place of the handler.
use go_chat_x.Common.{
  ℕ, String, ◌≡◌, ◌⊎◌, refl, ap, ◌∙◌, inl, inr, Bool, true, false, arith, Bool-cases,
}
use go_chat_x.Go.{Go, done, pure}
use go_chat_x.Middleware.{Outcome, answered, next, admin_middleware}
use go_chat_x.Middleware.Access.{admin_middleware-next_iff}
use go_chat_x.Middleware.Limiter.{SortedSets, limited, limit, login_key}
use go_chat_x.Middleware.Cors.{is_preflight}
use go_chat_x.Http.{Request, Response, nothing, refuse}
use go_chat_x.Site.{Site}
use go_chat_x.Api.Status.{admin_stats}
use go_chat_x.Api.Admin.{admin_users, admin_ban_user, admin_unban_user}
use go_chat_x.Gateway.{
  Deps, Route, login, stats, users, ban, unban, route, Reading, guarded_by, unless_limited,
  rate_limited, only_admin, serve_route, serve,
}

-- The routes under /api/admin/.
unfoldable pub is_admin_route : Route → Bool
is_admin_route stats = true
is_admin_route users = true
is_admin_route ban = true
is_admin_route unban = true
is_admin_route _ = false

module _ {S T : Type 0} (R : SortedSets) (D : Deps S T R.State) where
  open D use {tokens, client, roles, lower, handle_ws, file_server, redirect, srv, secret}

  only_admin-answered :
      (x : Reading) (r : Request) (m : Go (Site S T R.State) Response) (s : Site S T R.State)
      (status : ℕ) (reason : String)
      → admin_middleware tokens secret x.seconds r.authorization ≡ answered status reason
      → only_admin R D x r m s ≡ (done (refuse status reason), s)
  unfolding only_admin guarded_by pure
  only_admin-answered x r m s status reason e = rw e refl

  serve_route-answered :
      (ρ : Route) (x : Reading) (r : Request) (s : Site S T R.State) (status : ℕ) (reason : String)
      → is_admin_route ρ ≡ true
      → admin_middleware tokens secret x.seconds r.authorization ≡ answered status reason
      → serve_route R D ρ x r s ≡ (done (refuse status reason), s)
  unfolding is_admin_route serve_route
  serve_route-answered stats x r s status reason of_admin e =
      only_admin-answered x r admin_stats s status reason e
  serve_route-answered users x r s status reason of_admin e =
      only_admin-answered x r (admin_users roles srv.has_db) s status reason e
  serve_route-answered ban x r s status reason of_admin e =
      only_admin-answered x r (admin_ban_user roles srv.has_db r) s status reason e
  serve_route-answered unban x r s status reason of_admin e =
      only_admin-answered x r (admin_unban_user roles srv.has_db r) s status reason e
  serve_route-answered _ x r s status reason of_admin e = absurd (ground (arith, of_admin))

  -- A request for an admin path comes from an admin, whose token AdminMiddleware has accepted, or
  -- nothing changes and it learns nothing: the answer is that of a preflight request, with status
  -- 204, or the refusal of the middleware.
  pub serve-admin :
      (x : Reading) (r : Request) (s : Site S T R.State)
      → is_admin_route (route r.path) ≡ true
      → ((u : String) × (admin_middleware tokens secret x.seconds r.authorization ≡ next u "admin"))
        ⊎ ((serve R D x r s ≡ (done (record { status = 204; body = nothing }), s))
            ⊎ ((status : ℕ) × (reason : String) × (serve R D x r s
                  ≡ (done (refuse status reason), s))))
  unfolding serve pure
  serve-admin x r s of_admin = elim (Bool-cases (is_preflight r)) [
    | inl preflight ↦ inr (inl (rw preflight refl))
    | inr own ↦ rw own (judged (admin_middleware tokens secret x.seconds r.authorization) refl)
  ]
    where
      judged :
          (o : Outcome)
          → admin_middleware tokens secret x.seconds r.authorization ≡ o
          → ((u : String) × (admin_middleware tokens secret x.seconds r.authorization
                ≡ next u "admin"))
            ⊎ ((serve_route R D (route r.path) x r s
                  ≡ (done (record { status = 204; body = nothing }), s))
                ⊎ ((status : ℕ) × (reason : String) × (serve_route R D (route r.path) x r s
                      ≡ (done (refuse status reason), s))))
      judged (answered status reason) e =
          inr (
            inr
              (status, reason, serve_route-answered (route r.path) x r s status reason of_admin e))
      judged (next u role) e = inl (
        u,
        e
            ∙ ap (next u)
                ((admin_middleware-next_iff tokens secret x.seconds r.authorization u role).0 e).1,
      )

  -- A login beyond the limit of its key is answered with status 429 without a call of the auth
  -- service: only the sorted sets of the limiter change.
  pub serve-limited :
      (x : Reading) (r : Request) (s : Site S T R.State) (l : R.State)
      → is_preflight r ≡ false
      → route r.path ≡ login
      → limit R srv.has_redis login_key 10 60000 x.millis r s.limits ≡ (limited, l)
      → serve R D x r s
        ≡ (done (refuse 429 "rate limit exceeded, try again later"), record s { limits = l })
  unfolding serve serve_route rate_limited unless_limited pure
  serve-limited x r s l own to_login over = rw (own, to_login, over) refl
