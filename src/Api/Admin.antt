-- ===== src/Api/Admin.antt =====
-- internal/gateway/api.go: AdminUsers, AdminBanUser, AdminUnbanUser and disconnectUser.
pub mod Bans
pub mod Entry
use go_chat_x.Common.{
  ℕ, zero, suc, String, Bool, true, false, Option, none, some, List, [], ◌∷◌, ◌==◌, if◌then◌else◌,
}
use go_chat_x.Go.{Go, done, pure, panics, if_some, ◌>>=◌, ◌>>◌}
use go_chat_x.Http.{Request, UserRow, Response, users, message, json_response, refuse}
use go_chat_x.Hub.{Hub, get_online_client, close_conn}
use go_chat_x.Site.{Site, on_chat}
use go_chat_x.Api.Backend.{Row, Roles}

-- `err != nil || req.UserID == ""`
unfoldable pub full_id : Option String → Option String
full_id none = none
full_id (some id) = if id == "" then none else some id

-- `c != nil`
unfoldable pub is_there {ℓ} : {A : Type ℓ} → Option A → Bool
is_there none = false
is_there (some a) = true

unfoldable pub user_row : Row → Bool → UserRow
user_row r online = record {
  id = r.id;
  username = r.username;
  role = r.role;
  created_at = r.created_at;
  is_online = online;
}

-- The loop over the rows.
unfoldable pub collect_rows : List Row → Go Hub (List UserRow)
collect_rows [] = pure []
collect_rows (r ∷ rs) =
    let rest = collect_rows rs in
    if r.scans
    then (get_online_client r.username >>= λ c. rest >>= λ us. pure (user_row r (is_there c) ∷ us))
    else rest

unfoldable pub disconnect_user : String → Go Hub Unit
disconnect_user user_id =
    get_online_client user_id >>= λ c. if_some c (λ c. close_conn c.conn) (pure tt)

unfoldable pub unbanned_reply : Option ℕ → Response
unbanned_reply none = refuse 500 "database error"
unbanned_reply (some zero) = refuse 400 "user not found or not banned"
unbanned_reply (some (suc n)) = json_response 200 (message true "user unbanned")

-- A method of s.DB: with a nil pointer it panics.
unfoldable pub on_db {ℓ} : {S A : Type ℓ} → (has_db : Bool) → Go S A → Go S A
on_db has_db query = if has_db then query else panics

module _ {S T R : Type 0} (roles : Roles T) where
  unfoldable pub users_reply : Option (List Row) → Go (Site S T R) Response
  users_reply none = pure (refuse 500 "database error")
  users_reply (some rows) =
      on_chat (collect_rows rows >>= λ us. pure (json_response 200 (users us)))

  unfoldable pub list_all : Go (Site S T R) Response
  list_all s = users_reply (roles.list_users s.table) s

  unfoldable pub admin_users : (has_db : Bool) → Go (Site S T R) Response
  admin_users has_db =
      if has_db then on_db has_db list_all else pure (refuse 503 "database unavailable")

  unfoldable pub banned_reply : (user_id : String) → Option ℕ → Go (Site S T R) Response
  banned_reply user_id none = pure (refuse 500 "database error")
  banned_reply user_id (some zero) = pure (refuse 400 "user not found or is admin")
  banned_reply user_id (some (suc n)) =
      on_chat (disconnect_user user_id) >> pure (json_response 200 (message true "user banned"))

  unfoldable pub set_banned : (user_id : String) → Go (Site S T R) Response
  set_banned user_id s =
      let (affected, t) = roles.ban user_id s.table in
      banned_reply user_id affected (record s { table = t })

  unfoldable pub ban_user : (has_db : Bool) → Option String → Go (Site S T R) Response
  ban_user has_db none = pure (refuse 400 "user_id required")
  ban_user has_db (some user_id) = on_db has_db (set_banned user_id)

  unfoldable pub admin_ban_user : (has_db : Bool) → Request → Go (Site S T R) Response
  admin_ban_user has_db r =
      if r.method == "POST"
      then (if has_db
          then ban_user has_db (full_id r.user_id)
          else pure (refuse 503 "database unavailable"))
      else pure (refuse 405 "method not allowed")

  unfoldable pub set_unbanned : (user_id : String) → Go (Site S T R) Response
  set_unbanned user_id s =
      let (affected, t) = roles.unban user_id s.table in
      (done (unbanned_reply affected), record s { table = t })

  unfoldable pub unban_user : (has_db : Bool) → Option String → Go (Site S T R) Response
  unban_user has_db none = pure (refuse 400 "user_id required")
  unban_user has_db (some user_id) = on_db has_db (set_unbanned user_id)

  unfoldable pub admin_unban_user : (has_db : Bool) → Request → Go (Site S T R) Response
  admin_unban_user has_db r =
      if r.method == "POST"
      then (if has_db
          then unban_user has_db (full_id r.user_id)
          else pure (refuse 503 "database unavailable"))
      else pure (refuse 405 "method not allowed")
