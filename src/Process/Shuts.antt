-- ===== src/Process/Shuts.antt =====
-- What a ban changes of the chat: which connections the server has closed, and nothing else.
use go_chat_x.Common.{
  ℕ, zero, suc, String, ◌≡◌, refl, ap, ◌∙◌, Bool, true, Option, none, some, update, ◌==◌,
}
use go_chat_x.GoMap.{lookup}
use go_chat_x.Go.{Go}
use go_chat_x.Go.Keeps.{Keeps, Keeps-pure, Keeps-panics, Keeps-if, Keeps-bind}
use go_chat_x.Hub.{Hub, Client}
use go_chat_x.World.{World, on_hub}
use go_chat_x.Http.{Request, Response}
use go_chat_x.Site.{Site, on_chat}
use go_chat_x.Middleware.{Outcome, answered, next}
use go_chat_x.Api.Backend.{Roles}
use go_chat_x.Api.Admin.{
  on_db, set_banned, full_id, disconnect_user, banned_reply, ban_user, admin_ban_user,
}
use go_chat_x.Api.Admin.Bans.{cut, disconnect_user_lem}
use go_chat_x.Gateway.{guarded_by}

-- Nothing but `shut` differs.
unfoldable pub IsButShut : {S : Type 0} → World S → World S → Type 0
IsButShut w w' = (shut : ℕ → Bool) × (w' ≡ record w { hub = record w.hub { shut = shut } })

pub same-IsButShut : {S : Type 0} (w w' : World S) → w' ≡ w → IsButShut w w'
unfolding IsButShut
same-IsButShut w w' e = (w.hub.shut, e)

cut-shut : (id : String) (h : Hub) → (shut : ℕ → Bool) × (cut id h ≡ record h { shut = shut })
unfolding cut
cut-shut id h = at (lookup id h.online)
  where
    at :
        (o : Option Client)
        → (shut : ℕ → Bool) × ((elim o [
          | none ↦ h
          | some c ↦ record h { shut = update h.shut c.conn true }
        ])
            ≡ record h { shut = shut })
    at none = (h.shut, refl)
    at (some c) = (update h.shut c.conn true, refl)

module _ {S : Type 0} (T R : Type 0) (w : World S) where
  unfoldable pub Shuts : {A : Type 0} → Go (Site S T R) A → Type 0
  Shuts m = Keeps (λ s. IsButShut w s.world) m

  disconnect_user-Shuts : (id : String) → Shuts (on_chat (disconnect_user id))
  unfolding Shuts IsButShut on_chat on_hub
  disconnect_user-Shuts id = record {
    at = λ s before.
        let (shut, e) = cut-shut id s.world.hub in
        (
          shut,
          ap (λ h. record s.world { hub = h })
                (ap (λ r. r.1) (disconnect_user_lem id s.world.hub) ∙ e)
              ∙ ap (λ (v : World S). record v { hub = record v.hub { shut = shut } }) before.1,
        );
  }

  banned_reply-Shuts :
      (roles : Roles T) (id : String) (o : Option ℕ) → Shuts (banned_reply roles id o)
  unfolding banned_reply Shuts
  banned_reply-Shuts roles id none = Keeps-pure _
  banned_reply-Shuts roles id (some zero) = Keeps-pure _
  banned_reply-Shuts roles id (some (suc n)) =
      Keeps-bind _ _ (unfold Shuts in disconnect_user-Shuts id) (λ _. Keeps-pure _)

  set_banned-Shuts : (roles : Roles T) (id : String) → Shuts (set_banned roles id)
  unfolding set_banned Shuts
  set_banned-Shuts roles id = record {
    at = λ s before.
        (banned_reply-Shuts roles id (roles.ban id s.table).0).at
          (record s { table = (roles.ban id s.table).1 }) before;
  }

  ban_user-Shuts :
      (roles : Roles T) (has_db : Bool) (o : Option String) → Shuts (ban_user roles has_db o)
  unfolding ban_user on_db Shuts
  ban_user-Shuts roles has_db none = Keeps-pure _
  ban_user-Shuts roles has_db (some id) =
      Keeps-if has_db _ _ (set_banned-Shuts roles id) Keeps-panics

  pub admin_ban_user-Shuts :
      (roles : Roles T) (has_db : Bool) (r : Request) → Shuts (admin_ban_user roles has_db r)
  unfolding admin_ban_user Shuts
  admin_ban_user-Shuts roles has_db r =
      Keeps-if (r.method == "POST") _ _
        (Keeps-if has_db _ _ (ban_user-Shuts roles has_db (full_id r.user_id)) (Keeps-pure _))
        (Keeps-pure _)

  pub guarded_by-Shuts :
      (o : Outcome) (m : Go (Site S T R) Response) → Shuts m → Shuts (guarded_by o m)
  unfolding guarded_by Shuts
  guarded_by-Shuts (answered status reason) m shuts = Keeps-pure _
  guarded_by-Shuts (next u role) m shuts = shuts
