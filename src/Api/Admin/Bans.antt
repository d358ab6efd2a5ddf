-- ===== src/Api/Admin/Bans.antt =====
-- What a ban does, in the table of users and in the chat.
use go_chat_x.Common.{
  ℕ, zero, suc, String, ◌≡◌, refl, sym, ap, ◌∙◌, Bool, true, false, Option, none, some, arith,
  update, inl, inr, Bool-cases, ◌==◌, if◌then◌else◌,
}
use go_chat_x.GoMap.{lookup}
use go_chat_x.Go.{Go, Result, done, panic, pure, panics, gets, modify, if_some, ◌>>=◌}
use go_chat_x.Http.{Request, Response, Body, json_response, refuse}
use go_chat_x.Hub.{Hub, Client, get_online_client, close_conn}
use go_chat_x.World.{on_hub}
use go_chat_x.Site.{Site, on_chat}
use go_chat_x.Api.Backend.{Roles}
use go_chat_x.Api.Admin.{
  full_id, disconnect_user, banned_reply, ban_user, admin_ban_user, unbanned_reply, unban_user,
  admin_unban_user, on_db, set_banned, set_unbanned,
}

status_of : {A : Type 0} → Result Response × A → ℕ
status_of (done r, s) = r.status
status_of (panic, s) = 0

-- The hub after disconnectUser.
unfoldable pub cut : String → Hub → Hub
cut user_id h = elim (lookup user_id h.online) [
  | none ↦ h
  | some c ↦ record h { shut = update h.shut c.conn true }
]

pub disconnect_user_lem :
    (user_id : String) (h : Hub) → disconnect_user user_id h ≡ (done tt, cut user_id h)
unfolding disconnect_user get_online_client gets ◌>>=◌ if_some pure close_conn modify cut
disconnect_user_lem user_id h = at (lookup user_id h.online)
  where
    at :
        (o : Option Client)
        → if_some o (λ c. close_conn c.conn) (pure tt) h
          ≡ (done tt, elim o [ none ↦ h | some c ↦ record h { shut = update h.shut c.conn true } ])
    at none = refl
    at (some c) = refl

on_db-done :
    {S A : Type 0} (has_db : Bool) (query : Go S A) (s s' : S) (a : A)
    → on_db has_db query s ≡ (done a, s')
    → query s ≡ (done a, s')
unfolding on_db panics
on_db-done true query s s' a e = e
on_db-done false query s s' a e = absurd (panic-ne-done (ap (λ r. r.0) e))
  where
    panic-ne-done : panic ≡ done a → ⊥
    panic-ne-done p = cc

on_db-keeps :
    {S A : Type 0} (P : S → Type 0) (has_db : Bool) (query : Go S A) (s : S)
    → P s
    → P (query s).1
    → P (on_db has_db query s).1
unfolding on_db panics
on_db-keeps P true query s p q = q
on_db-keeps P false query s p q = p

module _ {S T R : Type 0} where
  -- What is not answered with an error got through the guards of both handlers.
  guarded :
      (post has_db : Bool) (o : Option String) (body : Option String → Go (Site S T R) Response)
      (s s' : Site S T R) (b : Body)
      → body none s ≡ (done (refuse 400 "user_id required"), s)
      → (if post
            then (if has_db then body (full_id o) else pure (refuse 503 "database unavailable"))
            else pure (refuse 405 "method not allowed"))
          s
        ≡ (done (json_response 200 b), s')
      → (id : String) × (o ≡ some id) × (body (some id) s ≡ (done (json_response 200 b), s'))
  unfolding pure status_of full_id json_response
  guarded false has_db o body s s' b refused e = absurd (omega (arith, ap status_of e))
  guarded true false o body s s' b refused e = absurd (omega (arith, ap status_of e))
  guarded true true none body s s' b refused e =
      absurd (omega (arith, ap status_of refused, ap status_of e))
  guarded true true (some id) body s s' b refused e = elim (Bool-cases (id == "")) [
    | inl empty ↦ absurd (omega (arith, ap status_of refused, ap status_of (rw empty at e)))
    | inr full ↦ (id, refl, rw full at e)
  ]

  guarded_keeps :
      (P : Site S T R → Type 0) (post has_db : Bool) (o : Option String) (id : String)
      (body : Option String → Go (Site S T R) Response) (s : Site S T R)
      → o ≡ some id
      → P s
      → P (body none s).1
      → P (body (some id) s).1
      → P
          ((if post
              then (if has_db then body (full_id o) else pure (refuse 503 "database unavailable"))
              else pure (refuse 405 "method not allowed"))
            s).1
  unfolding pure full_id
  guarded_keeps P false has_db o id body s named p pn pi = p
  guarded_keeps P true false o id body s named p pn pi = p
  guarded_keeps P true true o id body s named p pn pi =
      rw named (elim (Bool-cases (id == "")) [ inl empty ↦ rw empty pn | inr full ↦ rw full pi ])

is_admin_role : Option String → Bool
is_admin_role none = false
is_admin_role (some role) = role == "admin"

admin-ne-banned : ◌≡◌ {A = Option String} (some "admin") (some "banned") → ⊥
unfolding is_admin_role
admin-ne-banned e = ground (arith, ap is_admin_role e)

unbanned_reply-ok :
    (o : Option ℕ) (b : Body)
    → done (unbanned_reply o) ≡ done (json_response 200 b)
    → (n : ℕ) × (o ≡ some (suc n))
unfolding unbanned_reply status_of json_response
unbanned_reply-ok none b e = absurd (omega (arith, ap (λ r. status_of (r, tt)) e))
unbanned_reply-ok (some zero) b e = absurd (omega (arith, ap (λ r. status_of (r, tt)) e))
unbanned_reply-ok (some (suc n)) b e = (n, refl)

module _ {S T R : Type 0} (roles : Roles T) where
  open roles use {role_of}

  banned_reply-ok :
      (id : String) (o : Option ℕ) (s s' : Site S T R) (b : Body)
      → banned_reply roles id o s ≡ (done (json_response 200 b), s')
      → (n : ℕ) × (o ≡ some (suc n))
        × (s' ≡ record s { world = record s.world { hub = cut id s.world.hub } })
  unfolding banned_reply pure status_of json_response on_chat on_hub ◌>>=◌
  banned_reply-ok id none s s' b e = absurd (omega (arith, ap status_of e))
  banned_reply-ok id (some zero) s s' b e = absurd (omega (arith, ap status_of e))
  banned_reply-ok id (some (suc n)) s s' b e =
      (n, refl, sym (ap (λ r. r.1) e) ∙ (rw (disconnect_user_lem id s.world.hub) refl))

  ban_user-ok :
      (has_db : Bool) (id : String) (s s' : Site S T R) (b : Body)
      → ban_user roles has_db (some id) s ≡ (done (json_response 200 b), s')
      → (n : ℕ) × (roles.ban id s.table ≡ (some (suc n), s'.table))
        × (s' ≡ record s { world = record s.world { hub = cut id s.world.hub }; table = s'.table })
  unfolding ban_user set_banned
  ban_user-ok has_db id s s' b e' =
      let e = on_db-done has_db (set_banned roles id) s s' (json_response 200 b) e' in
      let (n, changed, after) =
        banned_reply-ok id (roles.ban id s.table).0 (record s { table = (roles.ban id s.table).1 })
          s' b e in
      (
        n,
        ap (λ o. (o, (roles.ban id s.table).1)) changed
            ∙ ap (λ t. (some (suc n), t)) (sym (ap (λ x. x.table) after)),
        after
            ∙ ap (λ t. record s { world = record s.world { hub = cut id s.world.hub }; table = t })
                (sym (ap (λ x. x.table) after)),
      )

  IsSpared : String → Site S T R → Site S T R → Type 0
  IsSpared id s s' = (role_of id s'.table ≡ some "admin") × (s'.world ≡ s.world)

  still :
      (id : String) (s : Site S T R) (o : Option ℕ) (t : T)
      → role_of id s.table ≡ some "admin"
      → roles.ban id s.table ≡ (o, t)
      → role_of id t ≡ some "admin"
  still id s o t is_admin e = sym (ap (λ x. role_of id x.1) e) ∙ roles.spared id s.table is_admin

  -- A ban that is answered with status 200 gives the user the role "banned" and closes the
  -- connection that the user is online with, if there is one; nothing else of the chat, of the
  -- rate limiter and of the files changes.
  pub admin_ban_user-ok :
      (has_db : Bool) (r : Request) (s s' : Site S T R) (b : Body) (id : String)
      → r.user_id ≡ some id
      → admin_ban_user roles has_db r s ≡ (done (json_response 200 b), s')
      → (role_of id s'.table ≡ some "banned")
        × (s' ≡ record s { world = record s.world { hub = cut id s.world.hub }; table = s'.table })
  unfolding admin_ban_user ban_user pure
  admin_ban_user-ok has_db r s s' b id named e =
      let (u, same, run) =
        guarded (r.method == "POST") has_db r.user_id (ban_user roles has_db) s s' b refl e in
      let run' : ban_user roles has_db (some id) s ≡ (done (json_response 200 b), s') =
        ap (λ (o : Option String). ban_user roles has_db o s) (sym named ∙ same) ∙ run in
      let (n, changed, after) = ban_user-ok has_db id s s' b run' in
      (roles.banned id s.table s'.table n changed, after)

  -- The role and the chat after an attempt to ban an admin, for each count of changed rows.
  banned_reply-admin :
      (id : String) (s : Site S T R) (o : Option ℕ) (t : T)
      → role_of id s.table ≡ some "admin"
      → roles.ban id s.table ≡ (o, t)
      → IsSpared id s (banned_reply roles id o (record s { table = t })).1
  unfolding banned_reply pure IsSpared
  banned_reply-admin id s none t is_admin e = (still id s none t is_admin e, refl)
  banned_reply-admin id s (some zero) t is_admin e = (still id s (some zero) t is_admin e, refl)
  banned_reply-admin id s (some (suc n)) t is_admin e = absurd (
      admin-ne-banned
        (sym (still id s (some (suc n)) t is_admin e) ∙ roles.banned id s.table t n e))

  -- An admin cannot be banned: whatever the handler answers to a request that names one, the role
  -- stays "admin" and the chat stays as it is.
  pub admin_ban_user-admin :
      (has_db : Bool) (r : Request) (s : Site S T R) (id : String)
      → r.user_id ≡ some id
      → role_of id s.table ≡ some "admin"
      → (role_of id (admin_ban_user roles has_db r s).1.table ≡ some "admin")
        × ((admin_ban_user roles has_db r s).1.world ≡ s.world)
  unfolding admin_ban_user ban_user IsSpared pure
  admin_ban_user-admin has_db r s id named is_admin =
      guarded_keeps (IsSpared id s) (r.method == "POST") has_db r.user_id id (ban_user roles has_db)
        s named (is_admin, refl) (is_admin, refl)
        (on_db-keeps (IsSpared id s) has_db (set_banned roles id) s (is_admin, refl)
          (unfold set_banned in
            banned_reply-admin id s (roles.ban id s.table).0 (roles.ban id s.table).1 is_admin
              refl))

  -- An unban that is answered with status 200 gives the user the role "user" back, and changes
  -- nothing but the table of users.
  pub admin_unban_user-ok :
      (has_db : Bool) (r : Request) (s s' : Site S T R) (b : Body) (id : String)
      → r.user_id ≡ some id
      → admin_unban_user roles has_db r s ≡ (done (json_response 200 b), s')
      → (role_of id s'.table ≡ some "user") × (s' ≡ record s { table = s'.table })
  unfolding admin_unban_user unban_user set_unbanned pure
  admin_unban_user-ok has_db r s s' b id named e =
      let (u, same, run) =
        guarded (r.method == "POST") has_db r.user_id (unban_user roles has_db) s s' b refl e in
      let run' : set_unbanned roles id s ≡ (done (json_response 200 b), s') =
        on_db-done has_db (set_unbanned roles id) s s' (json_response 200 b)
          (ap (λ (o : Option String). unban_user roles has_db o s) (sym named ∙ same) ∙ run) in
      let after : record s { table = (roles.unban id s.table).1 } ≡ s' = ap (λ x. x.1) run' in
      let (n, changed) = unbanned_reply-ok (roles.unban id s.table).0 b (ap (λ x. x.0) run') in
      (
        roles.unbanned id s.table s'.table n (
            ap (λ o. (o, (roles.unban id s.table).1)) changed
            ∙ ap (λ t. (some (suc n), t)) (ap (λ x. x.table) after)),
        sym after ∙ ap (λ t. record s { table = t }) (ap (λ x. x.table) after),
      )
