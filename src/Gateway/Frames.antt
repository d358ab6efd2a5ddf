-- ===== src/Gateway/Frames.antt =====
-- The parts of the site that each handler leaves alone.
use Prim.Native.Char.{Char}
use go_chat_x.Common.{
  ℕ, String, ◌≡◌, refl, ap, ◌∙◌, inl, inr, Bool, Option, none, some, List, [], ◌∷◌, Bool-cases,
  ◌==◌, zero, suc,
}
use go_chat_x.Go.{Go, pure, ◌>>=◌}
use go_chat_x.Go.Keeps.{Keeps, Keeps-pure, Keeps-panics, Keeps-if, Keeps-bind, keeps_rules}
use go_chat_x.Middleware.{Outcome, answered, next}
use go_chat_x.Middleware.Limiter.{Verdict, passed, limited}
use go_chat_x.Http.{
  Request, Response, Body, json_response, Credentials, Form, unreadable, no_file, file,
}
use go_chat_x.Hub.{Hub, get_online_users, get_room_count, get_room_ids, get_online_client}
use go_chat_x.World.{on_hub}
use go_chat_x.Site.{Site, on_chat}
use go_chat_x.Api.Backend.{AuthClient, Roles, Row, Disk}
use go_chat_x.Api.Account.{full_credentials, call_register, rest_register, call_login, rest_login}
use go_chat_x.Api.Status.{list_online, collect_stats, online_users, admin_stats}
use go_chat_x.Api.Admin.{
  collect_rows, users_reply, admin_users, full_id, banned_reply, ban_user, admin_ban_user,
  unban_user, admin_unban_user, on_db, list_all, set_banned, set_unbanned,
}
use go_chat_x.Text.Parts.{ext, to_lower}
use go_chat_x.Middleware.Cors.{lists}
use go_chat_x.Api.Upload.{allowed_types, save_upload, upload_form, upload}
use go_chat_x.Gateway.{guarded_by, unless_limited}

-- A statement leaves a part of its state alone.
abbrev pub Leaves : {A B C : Type 0} → (A → C) → Go A B → Type 0
Leaves {C = C} part m = (c : C) → Keeps (λ s. part s ≡ c) m

module _ {S T R C : Type 0} (part : Site S T R → C) where
  pub unmoved :
      {A : Type 0} (m : Go (Site S T R) A)
      → Leaves part m
      → (s : Site S T R) → part (m s).1 ≡ part s
  unmoved m leaves s = (leaves (part s)).at s refl

  pub Leaves-guarded_by :
      (o : Outcome) (m : Go (Site S T R) Response) → Leaves part m → Leaves part (guarded_by o m)
  unfolding guarded_by
  Leaves-guarded_by (answered status reason) m leaves c = Keeps-pure _
  Leaves-guarded_by (next user_id role) m leaves c = leaves c

  pub Leaves-unless_limited :
      (v : Verdict) (m : Go (Site S T R) Response)
      → Leaves part m
      → Leaves part (unless_limited v m)
  unfolding unless_limited
  Leaves-unless_limited passed m leaves c = leaves c
  Leaves-unless_limited limited m leaves c = Keeps-pure _

-- The read-only statements on the hub.
collect_rows-Leaves : (rs : List Row) → Leaves (λ h. h) (collect_rows rs)
unfolding collect_rows get_online_client
collect_rows-Leaves [] c = Keeps-pure []
collect_rows-Leaves (r ∷ rs) c = let tail = collect_rows-Leaves rs c in search keeps_rules depth 9

list_online-Leaves : Leaves (λ h. h) list_online
unfolding list_online get_online_users
list_online-Leaves c = search keeps_rules depth 9

collect_stats-Leaves : Leaves (λ h. h) collect_stats
unfolding collect_stats get_online_users get_room_count get_room_ids
collect_stats-Leaves c = search keeps_rules depth 9

module _ {S T R A : Type 0} where
  pub on_chat-world :
      (m : Go Hub A) → Leaves (λ h. h) m → Leaves (λ (s : Site S T R). s.world) (on_chat m)
  unfolding on_chat on_hub
  on_chat-world m leaves c = record {
    at = λ s e. ap (λ h. record s.world { hub = h }) ((leaves s.world.hub).at s.world.hub refl) ∙ e;
  }

  pub on_chat-files : (m : Go Hub A) → Leaves (λ (s : Site S T R). s.files) (on_chat m)
  unfolding on_chat
  on_chat-files m c = record { at = λ s e. e }

  pub on_chat-table : (m : Go Hub A) → Leaves (λ (s : Site S T R). s.table) (on_chat m)
  unfolding on_chat
  on_chat-table m c = record { at = λ s e. e }

module _ {S T R C : Type 0} (part : Site S T R → C) where
  -- A statement whose last state is known.
  same-Leaves :
      {A : Type 0} (m : Go (Site S T R) A)
      → ((s : Site S T R) → part (m s).1 ≡ part s)
      → Leaves part m
  same-Leaves m same c = record { at = λ s e. same s ∙ e }

module _ {S T R C : Type 0} (part : Site S T R → C)
    (table_free : (s : Site S T R) (t : T) → part (record s { table = t }) ≡ part s) where
  pub rest_register-Leaves :
      (client : Option (AuthClient T)) (r : Request) → Leaves part (rest_register client r)
  unfolding rest_register
  rest_register-Leaves client r c =
      Keeps-if (r.method == "POST") _ _ (called client (full_credentials r.credentials) c)
        (Keeps-pure _)
    where
      called :
          (client : Option (AuthClient T)) (o : Option Credentials)
          → Leaves part (call_register client o)
      called client none = same-Leaves part _ (λ s. unfold call_register in refl)
      called none (some x) = same-Leaves part _ (λ s. unfold call_register in refl)
      called (some client) (some x) =
          same-Leaves part _ (λ s. unfold call_register in table_free s _)

  pub rest_login-Leaves :
      (client : Option (AuthClient T)) (r : Request) → Leaves part (rest_login client r)
  unfolding rest_login
  rest_login-Leaves client r c =
      Keeps-if (r.method == "POST") _ _ (called client (full_credentials r.credentials) c)
        (Keeps-pure _)
    where
      called :
          (client : Option (AuthClient T)) (o : Option Credentials)
          → Leaves part (call_login client o)
      called client none = same-Leaves part _ (λ s. unfold call_login in refl)
      called none (some x) = same-Leaves part _ (λ s. unfold call_login in refl)
      called (some client) (some x) = same-Leaves part _ (λ s. unfold call_login in table_free s _)

  pub admin_unban_user-Leaves :
      (roles : Roles T) (has_db : Bool) (r : Request)
      → Leaves part (admin_unban_user roles has_db r)
  unfolding admin_unban_user
  admin_unban_user-Leaves roles has_db r c =
      Keeps-if (r.method == "POST") _ _
        (Keeps-if has_db _ _ (unbans (full_id r.user_id) c) (Keeps-pure _)) (Keeps-pure _)
    where
      unbans : (o : Option String) → Leaves part (unban_user roles has_db o)
      unbans none c = unfold unban_user in Keeps-pure _
      unbans (some id) c =
          unfold unban_user on_db in
          Keeps-if has_db _ _
            (same-Leaves part (set_unbanned roles id) (λ s. unfold set_unbanned in table_free s _)
              c)
            Keeps-panics

module _ {S T R C : Type 0} (part : Site S T R → C)
    (files_free : (s : Site S T R) (fs : List String)
      → part (record s { files = fs }) ≡ part s) where
  pub upload-Leaves :
      (lower : Char → Char) (d : Disk) (r : Request) → Leaves part (upload lower d r)
  unfolding upload upload_form save_upload
  upload-Leaves lower d r c = Keeps-if (r.method == "POST") _ _ (of_form r.form c) (Keeps-pure _)
    where
      saves :
          (name e : String) (size : ℕ) (s : Site S T R)
          → part (save_upload lower d name e size s).1 ≡ part s
      saves name e size s = elim (Bool-cases d.makes_dir) [
        | inr unmade ↦ rw unmade refl
        | inl made ↦ rw made (elim (Bool-cases d.creates) [
          | inr uncreated ↦ rw uncreated refl
          | inl created ↦ rw created (files_free s _)
        ])
      ]

      of_form : (form : Form) → Leaves part (upload_form lower d form)
      of_form unreadable c = Keeps-pure _
      of_form no_file c = Keeps-pure _
      of_form (file name size) c =
          Keeps-if (lists (to_lower lower (ext name)) allowed_types) _ _
            (same-Leaves part (save_upload lower d name (to_lower lower (ext name)) size)
              (saves name (to_lower lower (ext name)) size) c)
            (Keeps-pure _)

module _ {S T R C : Type 0} (part : Site S T R → C)
    (reads_only : (m : Go Hub Response) → Leaves (λ h. h) m → Leaves part (on_chat m)) where
  pub online_users-Leaves : (r : Request) → Leaves part (online_users r)
  unfolding online_users
  online_users-Leaves r c =
      Keeps-if (r.method == "GET") _ _ (reads_only list_online list_online-Leaves c) (Keeps-pure _)

  pub admin_stats-Leaves : Leaves part admin_stats
  unfolding admin_stats
  admin_stats-Leaves = reads_only collect_stats collect_stats-Leaves

  pub admin_users-Leaves :
      (roles : Roles T) (has_db : Bool) → Leaves part (admin_users roles has_db)
  unfolding admin_users
  admin_users-Leaves roles has_db c =
      Keeps-if has_db _ _
        (unfold on_db in
          Keeps-if has_db _ _
            (same-Leaves part (list_all roles)
              (λ s. unfold list_all in unmoved part _ (lists_users (roles.list_users s.table)) s) c)
            Keeps-panics)
        (Keeps-pure _)
    where
      collects :
          (rs : List Row)
          → Leaves (λ h. h) (collect_rows rs >>= λ us. pure (json_response 200 (Body.users us)))
      collects rs c = Keeps-bind _ _ (collect_rows-Leaves rs c) (λ us. Keeps-pure _)

      lists_users : (o : Option (List Row)) → Leaves part (users_reply roles o)
      lists_users none c = unfold users_reply in Keeps-pure _
      lists_users (some rows) c = unfold users_reply in reads_only _ (collects rows) c

module _ {S T R : Type 0} where
  pub admin_ban_user-files :
      (roles : Roles T) (has_db : Bool) (r : Request)
      → Leaves (λ (s : Site S T R). s.files) (admin_ban_user roles has_db r)
  unfolding admin_ban_user
  admin_ban_user-files roles has_db r c =
      Keeps-if (r.method == "POST") _ _
        (Keeps-if has_db _ _ (bans (full_id r.user_id) c) (Keeps-pure _)) (Keeps-pure _)
    where
      ends :
          (id : String) (o : Option ℕ)
          → Leaves (λ (s : Site S T R). s.files) (banned_reply roles id o)
      ends id none c = unfold banned_reply in Keeps-pure _
      ends id (some zero) c = unfold banned_reply in Keeps-pure _
      ends id (some (suc n)) c =
          unfold banned_reply in Keeps-bind _ _ (on_chat-files _ c) (λ _. Keeps-pure _)

      sets : (id : String) → Leaves (λ (s : Site S T R). s.files) (set_banned roles id)
      sets id =
          same-Leaves (λ (s : Site S T R). s.files) (set_banned roles id)
            (λ s. unfold set_banned in unmoved (λ (s : Site S T R). s.files) _ (ends id _) _)

      bans : (o : Option String) → Leaves (λ (s : Site S T R). s.files) (ban_user roles has_db o)
      bans none c = unfold ban_user in Keeps-pure _
      bans (some id) c = unfold ban_user on_db in Keeps-if has_db _ _ (sets id c) Keeps-panics
