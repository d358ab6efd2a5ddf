-- ===== src/Gateway/Routes.antt =====
-- What the handler of each route may change, and for whom.
use go_chat_x.Common.{ℕ, String, ◌≡◌, ◌≢◌, ◌⊎◌, refl, ap, ◌∙◌, inl, inr}
use go_chat_x.Go.{Go, pure}
use go_chat_x.Middleware.{Outcome, answered, next, auth_middleware, admin_middleware}
use go_chat_x.Middleware.Access.{admin_middleware-next_iff}
use go_chat_x.Middleware.Limiter.{SortedSets, ip_key, login_key}
use go_chat_x.Http.{Request, Response}
use go_chat_x.Site.{Site}
use go_chat_x.Api.Account.{rest_register, rest_login}
use go_chat_x.Api.Status.{online_users, admin_stats}
use go_chat_x.Api.Admin.{admin_users, admin_ban_user, admin_unban_user}
use go_chat_x.Api.Upload.{upload}
use go_chat_x.Gateway.{
  Deps, Route, ws, health, login, register, users_online, upload_file, uploads, stats, users, ban,
  unban, web, moved, Reading, guarded_by, rate_limited, only_user, only_admin, serve_route,
}
use go_chat_x.Gateway.Frames.{
  Leaves, unmoved, Leaves-guarded_by, Leaves-unless_limited, on_chat-world, on_chat-files,
  on_chat-table, rest_register-Leaves, rest_login-Leaves, admin_unban_user-Leaves, upload-Leaves,
  online_users-Leaves, admin_stats-Leaves, admin_users-Leaves, admin_ban_user-files,
}

-- What a guarded handler does, it does for a user that the middleware has let through.
guarded_by-cases :
    {S T R C : Type 0} (part : Site S T R → C) (o : Outcome) (m : Go (Site S T R) Response)
    (s : Site S T R)
    → (part (guarded_by o m s).1 ≡ part s) ⊎ ((u : String) × (role : String) × (o ≡ next u role))
unfolding guarded_by pure
guarded_by-cases part (answered status reason) m s = inl refl
guarded_by-cases part (next u role) m s = inr (u, role, refl)

module _ {S T : Type 0} (R : SortedSets) (D : Deps S T R.State) where
  open D use {tokens, client, roles, lower, handle_ws, file_server, redirect, srv, secret}

  abbrev served : Route → Reading → Request → Go (Site S T R.State) Response
  served = serve_route R D

  unfoldable pub IsUser : Reading → Request → Type 0
  IsUser x r =
      (u : String) × (role : String) × (auth_middleware tokens secret x.seconds r.authorization
        ≡ next u role)

  unfoldable pub IsAdmin : Reading → Request → Type 0
  IsAdmin x r =
      (u : String) × (admin_middleware tokens secret x.seconds r.authorization ≡ next u "admin")

  only_admin-cases :
      {C : Type 0} (part : Site S T R.State → C) (x : Reading) (r : Request)
      (m : Go (Site S T R.State) Response) (s : Site S T R.State)
      → (part (only_admin R D x r m s).1 ≡ part s) ⊎ IsAdmin x r
  unfolding only_admin IsAdmin
  only_admin-cases part x r m s =
      let o : Outcome = admin_middleware tokens secret x.seconds r.authorization in
      elim (guarded_by-cases part o m s) [
        | inl same ↦ inl same
        | inr (u, role, e) ↦ inr (
          u,
          e
              ∙ ap (next u)
                  ((admin_middleware-next_iff tokens secret x.seconds r.authorization u role).0
                    e).1,
        )
      ]

  module _ {C : Type 0} (part : Site S T R.State → C)
      (limits_free : (s : Site S T R.State) (l : R.State)
        → part (record s { limits = l }) ≡ part s) where
    limited_same :
        (key_of : Request → String) (max now : ℕ) (r : Request) (m : Go (Site S T R.State) Response)
        (s : Site S T R.State)
        → Leaves part m
        → part (rate_limited R D key_of max now r m s).1 ≡ part s
    unfolding rate_limited
    limited_same key_of max now r m s leaves =
        unmoved part _ (Leaves-unless_limited part _ m leaves) _ ∙ limits_free s _

    admin_same :
        (x : Reading) (r : Request) (m : Go (Site S T R.State) Response) (s : Site S T R.State)
        → Leaves part m
        → part (only_admin R D x r m s).1 ≡ part s
    unfolding only_admin
    admin_same x r m s leaves = unmoved part _ (Leaves-guarded_by part _ m leaves) s

    user_same :
        (x : Reading) (r : Request) (m : Go (Site S T R.State) Response) (s : Site S T R.State)
        → Leaves part m
        → part (only_user R D x r m s).1 ≡ part s
    unfolding only_user
    user_same x r m s leaves = unmoved part _ (Leaves-guarded_by part _ m leaves) s

  only_user-cases :
      {C : Type 0} (part : Site S T R.State → C) (x : Reading) (r : Request)
      (m : Go (Site S T R.State) Response) (s : Site S T R.State)
      → (part (only_user R D x r m s).1 ≡ part s) ⊎ IsUser x r
  unfolding only_user IsUser
  only_user-cases part x r m s =
      guarded_by-cases part (auth_middleware tokens secret x.seconds r.authorization) m s

  pub serve_route-world :
      (ρ : Route) (x : Reading) (r : Request) (s : Site S T R.State)
      → ρ ≢ ws
      → ((served ρ x r s).1.world ≡ s.world) ⊎ ((ρ ≡ ban) × IsAdmin x r)
  unfolding serve_route pure
  serve_route-world ws x r s other = absurd (other refl)
  serve_route-world health x r s other = inl refl
  serve_route-world login x r s other = inl (
      limited_same (λ s. s.world) (λ s l. refl) login_key 10 x.millis r (rest_login client r) s
        (rest_login-Leaves (λ s. s.world) (λ s t. refl) client r))
  serve_route-world register x r s other = inl (
      limited_same (λ s. s.world) (λ s l. refl) login_key 5 x.millis r (rest_register client r) s
        (rest_register-Leaves (λ s. s.world) (λ s t. refl) client r))
  serve_route-world users_online x r s other = inl (
      limited_same (λ s. s.world) (λ s l. refl) ip_key 30 x.millis r (online_users r) s
        (online_users-Leaves (λ s. s.world) (λ m leaves. on_chat-world m leaves) r))
  serve_route-world upload_file x r s other = inl (
      user_same (λ s. s.world) (λ s l. refl) x r (upload lower x.disk r) s
        (upload-Leaves (λ s. s.world) (λ s fs. refl) lower x.disk r))
  serve_route-world uploads x r s other = inl refl
  serve_route-world stats x r s other = inl (
      admin_same (λ s. s.world) (λ s l. refl) x r admin_stats s
        (admin_stats-Leaves (λ s. s.world) (λ m leaves. on_chat-world m leaves)))
  serve_route-world users x r s other = inl (
      admin_same (λ s. s.world) (λ s l. refl) x r (admin_users roles srv.has_db) s
        (admin_users-Leaves (λ s. s.world) (λ m leaves. on_chat-world m leaves) roles srv.has_db))
  serve_route-world ban x r s other =
      elim (only_admin-cases (λ s. s.world) x r (admin_ban_user roles srv.has_db r) s) [
        | inl same ↦ inl same
        | inr admin ↦ inr (refl, admin)
      ]
  serve_route-world unban x r s other = inl (
      admin_same (λ s. s.world) (λ s l. refl) x r (admin_unban_user roles srv.has_db r) s
        (admin_unban_user-Leaves (λ s. s.world) (λ s t. refl) roles srv.has_db r))
  serve_route-world web x r s other = inl refl
  serve_route-world moved x r s other = inl refl

  pub serve_route-files :
      (ρ : Route) (x : Reading) (r : Request) (s : Site S T R.State)
      → ρ ≢ ws
      → ((served ρ x r s).1.files ≡ s.files) ⊎ ((ρ ≡ upload_file) × IsUser x r)
  unfolding serve_route pure
  serve_route-files ws x r s other = absurd (other refl)
  serve_route-files health x r s other = inl refl
  serve_route-files login x r s other = inl (
      limited_same (λ s. s.files) (λ s l. refl) login_key 10 x.millis r (rest_login client r) s
        (rest_login-Leaves (λ s. s.files) (λ s t. refl) client r))
  serve_route-files register x r s other = inl (
      limited_same (λ s. s.files) (λ s l. refl) login_key 5 x.millis r (rest_register client r) s
        (rest_register-Leaves (λ s. s.files) (λ s t. refl) client r))
  serve_route-files users_online x r s other = inl (
      limited_same (λ s. s.files) (λ s l. refl) ip_key 30 x.millis r (online_users r) s
        (online_users-Leaves (λ s. s.files) (λ m leaves. on_chat-files m) r))
  serve_route-files upload_file x r s other =
      elim (only_user-cases (λ s. s.files) x r (upload lower x.disk r) s) [
        | inl same ↦ inl same
        | inr user ↦ inr (refl, user)
      ]
  serve_route-files uploads x r s other = inl refl
  serve_route-files stats x r s other = inl (
      admin_same (λ s. s.files) (λ s l. refl) x r admin_stats s
        (admin_stats-Leaves (λ s. s.files) (λ m leaves. on_chat-files m)))
  serve_route-files users x r s other = inl (
      admin_same (λ s. s.files) (λ s l. refl) x r (admin_users roles srv.has_db) s
        (admin_users-Leaves (λ s. s.files) (λ m leaves. on_chat-files m) roles srv.has_db))
  serve_route-files ban x r s other = inl (
      admin_same (λ s. s.files) (λ s l. refl) x r (admin_ban_user roles srv.has_db r) s
        (admin_ban_user-files roles srv.has_db r))
  serve_route-files unban x r s other = inl (
      admin_same (λ s. s.files) (λ s l. refl) x r (admin_unban_user roles srv.has_db r) s
        (admin_unban_user-Leaves (λ s. s.files) (λ s t. refl) roles srv.has_db r))
  serve_route-files web x r s other = inl refl
  serve_route-files moved x r s other = inl refl

  pub serve_route-table :
      (ρ : Route) (x : Reading) (r : Request) (s : Site S T R.State)
      → ρ ≢ ws
      → ((served ρ x r s).1.table ≡ s.table)
        ⊎ ((ρ ≡ login) ⊎ ((ρ ≡ register) ⊎ (((ρ ≡ ban) ⊎ (ρ ≡ unban)) × IsAdmin x r)))
  unfolding serve_route pure
  serve_route-table ws x r s other = absurd (other refl)
  serve_route-table health x r s other = inl refl
  serve_route-table login x r s other = inr (inl refl)
  serve_route-table register x r s other = inr (inr (inl refl))
  serve_route-table users_online x r s other = inl (
      limited_same (λ s. s.table) (λ s l. refl) ip_key 30 x.millis r (online_users r) s
        (online_users-Leaves (λ s. s.table) (λ m leaves. on_chat-table m) r))
  serve_route-table upload_file x r s other = inl (
      user_same (λ s. s.table) (λ s l. refl) x r (upload lower x.disk r) s
        (upload-Leaves (λ s. s.table) (λ s fs. refl) lower x.disk r))
  serve_route-table uploads x r s other = inl refl
  serve_route-table stats x r s other = inl (
      admin_same (λ s. s.table) (λ s l. refl) x r admin_stats s
        (admin_stats-Leaves (λ s. s.table) (λ m leaves. on_chat-table m)))
  serve_route-table users x r s other = inl (
      admin_same (λ s. s.table) (λ s l. refl) x r (admin_users roles srv.has_db) s
        (admin_users-Leaves (λ s. s.table) (λ m leaves. on_chat-table m) roles srv.has_db))
  serve_route-table ban x r s other =
      elim (only_admin-cases (λ s. s.table) x r (admin_ban_user roles srv.has_db r) s) [
        | inl same ↦ inl same
        | inr admin ↦ inr (inr (inr (inl refl, admin)))
      ]
  serve_route-table unban x r s other =
      elim (only_admin-cases (λ s. s.table) x r (admin_unban_user roles srv.has_db r) s) [
        | inl same ↦ inl same
        | inr admin ↦ inr (inr (inr (inr refl, admin)))
      ]
  serve_route-table web x r s other = inl refl
  serve_route-table moved x r s other = inl refl
