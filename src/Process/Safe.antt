-- ===== src/Process/Safe.antt =====
-- The requests to the REST API leave the chat free of panics: of the hub they change only which
-- connections the server has closed.
use go_chat_x.Common.{
  ℕ, String, ◌≡◌, ◌≢◌, ◌⊎◌, refl, sym, subst, inl, inr, List, [], ◌∷◌, All, Bool-cases, All-map,
  arith,
}
use go_chat_x.Go.{Go, pure}
use go_chat_x.Storage.Documents.{Collection}
use go_chat_x.Hub.Sound.{IsSound}
use go_chat_x.World.{World}
use go_chat_x.System.{System, step, crashed, connection}
use go_chat_x.System.Live.{IsServing}
use go_chat_x.System.Safe.{IsEventOf, step-IsServing, start-IsServing}
use go_chat_x.Http.{Request, Response}
use go_chat_x.Site.{Site}
use go_chat_x.Middleware.{admin_middleware}
use go_chat_x.Middleware.Limiter.{SortedSets}
use go_chat_x.Middleware.Cors.{is_preflight}
use go_chat_x.Api.Admin.{admin_ban_user}
use go_chat_x.Gateway.{Deps, Route, ws, ban, route, Reading, only_admin, serve_route, serve}
use go_chat_x.Gateway.Guards.{AreGuarded, serve-AreGuarded}
use go_chat_x.Process.{
  in_process, Process, Action, socket, request, site_of, back, handed_over, boot, act, act_all,
}
use go_chat_x.Process.Shuts.{
  IsButShut, same-IsButShut, Shuts, guarded_by-Shuts, admin_ban_user-Shuts,
}

ws_cases : (ρ : Route) → (ρ ≡ ws) ⊎ (ρ ≢ ws)
ws_cases ws = inl refl
ws_cases _ = inr (λ e. absurd (ground arith))

module _ {T : Type 0} (C : Collection) (R : SortedSets) (D : Deps C.State T R.State) where
  open D use {tokens, roles, srv, secret}

  abbrev served : Reading → Request → Go (Site C.State T R.State) Response
  served = serve R (in_process D)

  served-ws :
      (x : Reading) (r : Request) (s : Site C.State T R.State)
      → route r.path ≡ ws
      → (served x r s).1.world ≡ s.world
  unfolding serve serve_route pure handed_over
  served-ws x r s to_ws = elim (Bool-cases (is_preflight r)) [
    | inl preflight ↦ rw preflight refl
    | inr own ↦ rw (own, to_ws) refl
  ]

  served-ban :
      (x : Reading) (r : Request) (s : Site C.State T R.State)
      → route r.path ≡ ban
      → IsButShut s.world (served x r s).1.world
  unfolding serve serve_route only_admin pure Shuts
  served-ban x r s to_ban = elim (Bool-cases (is_preflight r)) [
    | inl preflight ↦ rw preflight (same-IsButShut s.world s.world refl)
    | inr own ↦
        rw (own, to_ban)
          ((guarded_by-Shuts T R.State s.world
              (admin_middleware tokens secret x.seconds r.authorization)
              (admin_ban_user roles srv.has_db r)
              (admin_ban_user-Shuts T R.State s.world roles srv.has_db r)).at
            s (same-IsButShut s.world s.world refl))
  ]

  -- A request changes of the chat only which connections the server has closed.
  served-IsButShut :
      (x : Reading) (r : Request) (s : Site C.State T R.State)
      → IsButShut s.world (served x r s).1.world
  unfolding AreGuarded
  served-IsButShut x r s = elim (ws_cases (route r.path)) [
    | inl to_ws ↦ same-IsButShut s.world _ (served-ws x r s to_ws)
    | inr other ↦ elim (serve-AreGuarded R (in_process D) x r s other).0 [
      | inl same ↦ same-IsButShut s.world _ same
      | inr (to_ban, _) ↦ served-ban x r s to_ban
    ]
  ]

  module _ (user : ℕ → String) where
    -- What `IsServing` asks for does not read which connections are closed.
    shut-IsServing :
        (y : System C.State) (w : World C.State)
        → IsButShut y.world w
        → IsServing user y
        → IsServing user (record y { world = w })
    unfolding IsButShut
    shut-IsServing y w (shut, e) v =
        subst (λ (z : World C.State). IsServing user (record y { world = z })) (sym e)
          (record {
            sound = record {
              online_named = v.sound.online_named;
              members_named = v.sound.members_named;
              room_named = v.sound.room_named;
              room_old = v.sound.room_old;
              fits = v.sound.fits;
            };
            online_live =
                All-map _ _ (λ e' l. record { in_loop = l.in_loop; is_me = l.is_me }) _
                  v.online_live;
            member_live = λ r p found.
                All-map _ _ (λ e' l. record { in_loop = l.in_loop; is_me = l.is_me }) _
                  (v.member_live r p found);
            open_chan = v.open_chan;
            me_user = v.me_user;
            no_crash = v.no_crash;
          })

    -- The event is no log-in of a connection as another user than its own.
    abbrev pub IsActionOf : Action → Type 0
    IsActionOf (socket e) = IsEventOf C srv user e
    IsActionOf (request x r) = Unit

    act-IsServing :
        (a : Action) (p : Process C.State T R.State)
        → IsActionOf a
        → IsServing user p.system
        → IsServing user (act C R D a p).system
    unfolding act back site_of step
    act-IsServing (socket e) p h v =
        step-IsServing C srv user e p.system (p.system.phase (connection C srv e)) refl h v
    act-IsServing (request x r) p h v =
        shut-IsServing p.system _
          (served-IsButShut x r (record {
            world = p.system.world;
            table = p.table;
            limits = p.limits;
            files = p.files;
          }))
          v

    act_all-IsServing :
        (todo : List Action) (p : Process C.State T R.State)
        → All IsActionOf todo
        → IsServing user p.system
        → IsServing user (act_all C R D todo p).system
    unfolding act_all
    act_all-IsServing [] p h v = v
    act_all-IsServing (a ∷ rest) p h v =
        act_all-IsServing rest (act C R D a p) h.1 (act-IsServing a p h.0 v)

    -- If every connection logs in as one user at most, and if events and requests run whole, one
    -- after the other, then no handler of a connection panics and the hub stays sound, whatever
    -- else the connections send, and whatever requests, bans of online users among them, come to
    -- the REST API.
    pub act_all-ne-crashed :
        (store : C.State) (table : T) (limits : R.State) (todo : List Action)
        → All IsActionOf todo
        → (k : ℕ)
        → ((act_all C R D todo (boot store table limits)).system.phase k ≢ crashed)
          × IsSound (act_all C R D todo (boot store table limits)).system.world.hub
    unfolding boot
    act_all-ne-crashed store table limits todo h k =
        let v : IsServing user (act_all C R D todo (boot store table limits)).system =
          act_all-IsServing todo (boot store table limits) h (start-IsServing C srv user store) in
        (v.no_crash k, v.sound)
