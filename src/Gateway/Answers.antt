-- ===== src/Gateway/Answers.antt =====
-- Every handler behind the mux ends with an answer.
use go_chat_x.Common.{ℕ, String, ◌≡◌}
use go_chat_x.Go.{Go, done}
use go_chat_x.Go.Ends.{Ends-if}
use go_chat_x.Http.{Request, Response}
use go_chat_x.Site.{Site}
use go_chat_x.Middleware.{Outcome, answered, next}
use go_chat_x.Middleware.Limiter.{SortedSets, Verdict, passed, limited, limit}
use go_chat_x.Middleware.Cors.{is_preflight}
use go_chat_x.Gateway.{
  Deps, Route, ws, health, login, register, users_online, upload_file, uploads, stats, users, ban,
  unban, web, moved, route, Reading, guarded_by, unless_limited, rate_limited, only_user,
  only_admin, serve_route, serve,
}
use go_chat_x.Api.Answers.{
  Answers, known, always, rest_register-Answers, rest_login-Answers, online_users-Answers,
  admin_stats-Answers, admin_users-Answers, admin_ban_user-Answers, admin_unban_user-Answers,
  upload-Answers,
}

module _ {S T R : Type 0} where
  guarded_by-Answers :
      (o : Outcome) (m : Go (Site S T R) Response) → Answers m → Answers (guarded_by o m)
  unfolding guarded_by
  guarded_by-Answers (answered status reason) m ends = always _
  guarded_by-Answers (next u role) m ends = ends

  unless_limited-Answers :
      (v : Verdict) (m : Go (Site S T R) Response) → Answers m → Answers (unless_limited v m)
  unfolding unless_limited
  unless_limited-Answers passed m ends = ends
  unless_limited-Answers limited m ends = always _

module _ {S T : Type 0} (R : SortedSets) (D : Deps S T R.State)
    (hands_over : (r : Request) → Answers (D.handle_ws r)) where
  rate_limited-Answers :
      (key_of : Request → String) (max now : ℕ) (r : Request) (m : Go (Site S T R.State) Response)
      → Answers m
      → Answers (rate_limited R D key_of max now r m)
  unfolding rate_limited
  rate_limited-Answers key_of max now r m ends = known _ (λ s.
      let l : Verdict × R.State = limit R D.srv.has_redis key_of max 60000 now r s.limits in
      let (a, e, _) = (unless_limited-Answers l.0 m ends).at (record s { limits = l.1 }) tt in
      (a, e))

  serve_route-Answers : (ρ : Route) (x : Reading) (r : Request) → Answers (serve_route R D ρ x r)
  unfolding serve_route only_user only_admin
  serve_route-Answers ws x r = hands_over r
  serve_route-Answers health x r = always _
  serve_route-Answers login x r = rate_limited-Answers _ _ _ r _ (rest_login-Answers D.client r)
  serve_route-Answers register x r =
      rate_limited-Answers _ _ _ r _ (rest_register-Answers D.client r)
  serve_route-Answers users_online x r = rate_limited-Answers _ _ _ r _ (online_users-Answers r)
  serve_route-Answers upload_file x r = guarded_by-Answers _ _ (upload-Answers D.lower x.disk r)
  serve_route-Answers uploads x r = always _
  serve_route-Answers stats x r = guarded_by-Answers _ _ admin_stats-Answers
  serve_route-Answers users x r = guarded_by-Answers _ _ (admin_users-Answers D.roles D.srv.has_db)
  serve_route-Answers ban x r =
      guarded_by-Answers _ _ (admin_ban_user-Answers D.roles D.srv.has_db r)
  serve_route-Answers unban x r =
      guarded_by-Answers _ _ (admin_unban_user-Answers D.roles D.srv.has_db r)
  serve_route-Answers web x r = always _
  serve_route-Answers moved x r = always _

  -- No handler behind the mux panics, by a nil *sql.DB or by a send on a closed channel: in every
  -- state of the site each request is answered, if HandleWS answers those that it takes over.
  pub serve-answers :
      (x : Reading) (r : Request) (s : Site S T R.State)
      → (a : Response) × ((serve R D x r s).0 ≡ done a)
  unfolding serve
  serve-answers x r s =
      let (a, e, _) =
        (Ends-if (is_preflight r) _ _ (λ _. always _)
            (λ _. serve_route-Answers (route r.path) x r)).at
          s tt in
      (a, e)
