-- ===== src/Api/Answers.antt =====
-- Every handler of the REST API ends with an answer.
use Prim.Native.Char.{Char}
use go_chat_x.Common.{
  ℕ, zero, suc, String, ◌≡◌, refl, inl, inr, Bool, true, false, Option, none, some, List, [], ◌∷◌,
  ◌==◌,
}
use go_chat_x.Go.{Go, done, pure}
use go_chat_x.Go.Ends.{Ends, Ends-pure, Ends-gets, Ends-if, Ends-bind, Ends-if_some, Ends-modify}
use go_chat_x.Http.{Request, Response, Credentials, refuse}
use go_chat_x.Hub.{
  Hub, get_online_users, get_room_count, get_room_ids, get_online_client, close_conn,
}
use go_chat_x.Site.{Site, on_chat}
use go_chat_x.Api.Backend.{AuthClient, Row, Roles, Disk}
use go_chat_x.World.{on_hub}
use go_chat_x.Api.Account.{full_credentials, call_register, rest_register, call_login, rest_login}
use go_chat_x.Api.Status.{list_online, collect_stats, online_users, admin_stats}
use go_chat_x.Api.Admin.{
  collect_rows, disconnect_user, users_reply, admin_users, full_id, banned_reply, ban_user, on_db,
  list_all, set_banned, set_unbanned, admin_ban_user, unban_user, admin_unban_user,
}
use go_chat_x.Api.Upload.{upload}
use go_chat_x.Api.Upload.Saved.{IsRefused, IsUpload, IsSaved, upload-IsUpload}

-- The statement ends, from every state.
abbrev pub Answers : {S A : Type 0} → Go S A → Type 0
Answers m = Ends (λ _. Unit {0}) m (λ _ _. Unit {0})

pub list_online-Answers : Answers list_online
unfolding list_online get_online_users
list_online-Answers =
    Ends-bind (λ _ _. Unit) _ _ (Ends-gets _ (λ s p. tt)) (λ us. Ends-pure _ (λ s p. tt))

pub collect_stats-Answers : Answers collect_stats
unfolding collect_stats get_online_users get_room_count get_room_ids
collect_stats-Answers =
    Ends-bind (λ _ _. Unit) _ _ (Ends-gets _ (λ s p. tt))
      (λ a.
        Ends-bind (λ _ _. Unit) _ _ (Ends-gets _ (λ s p. tt))
          (λ b.
            Ends-bind (λ _ _. Unit) _ _ (Ends-gets _ (λ s p. tt))
              (λ c.
                Ends-bind (λ _ _. Unit) _ _ (Ends-gets _ (λ s p. tt))
                  (λ d. Ends-pure _ (λ s p. tt)))))

pub collect_rows-Answers : (rs : List Row) → Answers (collect_rows rs)
unfolding collect_rows get_online_client
collect_rows-Answers [] = Ends-pure _ (λ s p. tt)
collect_rows-Answers (r ∷ rs) =
    Ends-if r.scans _ _
      (λ _.
        Ends-bind (λ _ _. Unit) _ _ (Ends-gets _ (λ s p. tt))
          (λ c.
            Ends-bind (λ _ _. Unit) _ _ (collect_rows-Answers rs) (λ us. Ends-pure _ (λ s p. tt))))
      (λ _. collect_rows-Answers rs)

pub disconnect_user-Answers : (id : String) → Answers (disconnect_user id)
unfolding disconnect_user get_online_client close_conn
disconnect_user-Answers id =
    Ends-bind (λ _ _. Unit) _ _ (Ends-gets _ (λ s p. tt))
      (λ c. Ends-if_some c _ _ (λ a e. Ends-modify _ _ (λ s p. tt)) (λ e. Ends-pure _ (λ s p. tt)))

module _ {S T R : Type 0} where
  pub on_chat-Answers :
      {A : Type 0} (m : Go Hub A) → Answers m → Answers {S = Site S T R} (on_chat m)
  unfolding on_chat on_hub
  on_chat-Answers m ends = record {
    at = λ s p. let (a, e, _) = ends.at s.world.hub tt in (a, e, tt);
  }

  -- A statement whose answer is known in every state.
  pub known :
      {A : Type 0} (m : Go (Site S T R) A)
      → ((s : Site S T R) → (a : A) × ((m s).0 ≡ done a))
      → Answers m
  known m answer = record { at = λ s p. let (a, e) = answer s in (a, e, tt) }

  -- A query of the table ends when there is a database to ask.
  with_db-Answers :
      (has_db : Bool) (query : Go (Site S T R) Response)
      → has_db ≡ true
      → Answers query
      → Answers (on_db has_db query)
  unfolding on_db
  with_db-Answers true query there ends = ends
  with_db-Answers false query there ends = cc

  pub always : {A : Type 0} (a : A) → Answers {S = Site S T R} (pure a)
  always a = Ends-pure a (λ s p. tt)

  pub rest_register-Answers :
      (client : Option (AuthClient T)) (r : Request)
      → Answers {S = Site S T R} (rest_register client r)
  unfolding rest_register
  rest_register-Answers client r =
      Ends-if (r.method == "POST") _ _ (λ _. called client (full_credentials r.credentials))
        (λ _. always _)
    where
      called :
          (c : Option (AuthClient T)) (o : Option Credentials)
          → Answers {S = Site S T R} (call_register c o)
      called c none = known _ (λ s. unfold call_register in (_, refl))
      called none (some x) = known _ (λ s. unfold call_register in (_, refl))
      called (some c) (some x) = known _ (λ s. unfold call_register in (_, refl))

  pub rest_login-Answers :
      (client : Option (AuthClient T)) (r : Request)
      → Answers {S = Site S T R} (rest_login client r)
  unfolding rest_login
  rest_login-Answers client r =
      Ends-if (r.method == "POST") _ _ (λ _. called client (full_credentials r.credentials))
        (λ _. always _)
    where
      called :
          (c : Option (AuthClient T)) (o : Option Credentials)
          → Answers {S = Site S T R} (call_login c o)
      called c none = known _ (λ s. unfold call_login in (_, refl))
      called none (some x) = known _ (λ s. unfold call_login in (_, refl))
      called (some c) (some x) = known _ (λ s. unfold call_login in (_, refl))

  pub online_users-Answers : (r : Request) → Answers {S = Site S T R} (online_users r)
  unfolding online_users
  online_users-Answers r =
      Ends-if (r.method == "GET") _ _ (λ _. on_chat-Answers _ list_online-Answers) (λ _. always _)

  pub admin_stats-Answers : Answers {S = Site S T R} admin_stats
  unfolding admin_stats
  admin_stats-Answers = on_chat-Answers _ collect_stats-Answers

  pub admin_users-Answers :
      (roles : Roles T) (has_db : Bool) → Answers {S = Site S T R} (admin_users roles has_db)
  unfolding admin_users
  admin_users-Answers roles has_db =
      Ends-if has_db _ _ (λ there. with_db-Answers has_db _ there lists_all) (λ _. always _)
    where
      lists_users : (o : Option (List Row)) → Answers {S = Site S T R} (users_reply roles o)
      lists_users none = unfold users_reply in always _
      lists_users (some rows) =
          unfold users_reply in
          on_chat-Answers _ (
            Ends-bind (λ _ _. Unit) _ _ (collect_rows-Answers rows) (λ us. Ends-pure _ (λ s p. tt)))

      lists_all : Answers {S = Site S T R} (list_all roles)
      lists_all = known _ (λ s.
          unfold list_all in
          let (a, e, _) = (lists_users (roles.list_users s.table)).at s tt in (a, e))

  pub admin_ban_user-Answers :
      (roles : Roles T) (has_db : Bool) (r : Request)
      → Answers {S = Site S T R} (admin_ban_user roles has_db r)
  unfolding admin_ban_user
  admin_ban_user-Answers roles has_db r =
      Ends-if (r.method == "POST") _ _
        (λ _. Ends-if has_db _ _ (λ there. bans there (full_id r.user_id)) (λ _. always _))
        (λ _. always _)
    where
      replies : (id : String) (o : Option ℕ) → Answers {S = Site S T R} (banned_reply roles id o)
      replies id none = unfold banned_reply in always _
      replies id (some zero) = unfold banned_reply in always _
      replies id (some (suc n)) =
          unfold banned_reply in
          Ends-bind (λ _ _. Unit) _ _ (on_chat-Answers _ (disconnect_user-Answers id))
            (λ u. always _)

      sets : (id : String) → Answers {S = Site S T R} (set_banned roles id)
      sets id = known _ (λ s.
          unfold set_banned in
          let (a, e, _) =
            (replies id (roles.ban id s.table).0).at (record s { table = (roles.ban id s.table).1 })
              tt in
          (a, e))

      bans :
          has_db ≡ true → (o : Option String) → Answers {S = Site S T R} (ban_user roles has_db o)
      bans there none = unfold ban_user in always _
      bans there (some id) =
          unfold ban_user in with_db-Answers has_db (set_banned roles id) there (sets id)

  pub admin_unban_user-Answers :
      (roles : Roles T) (has_db : Bool) (r : Request)
      → Answers {S = Site S T R} (admin_unban_user roles has_db r)
  unfolding admin_unban_user
  admin_unban_user-Answers roles has_db r =
      Ends-if (r.method == "POST") _ _
        (λ _. Ends-if has_db _ _ (λ there. unbans there (full_id r.user_id)) (λ _. always _))
        (λ _. always _)
    where
      sets : (id : String) → Answers {S = Site S T R} (set_unbanned roles id)
      sets id = known _ (λ s. unfold set_unbanned in (_, refl))

      unbans :
          has_db ≡ true → (o : Option String) → Answers {S = Site S T R} (unban_user roles has_db o)
      unbans there none = unfold unban_user in always _
      unbans there (some id) =
          unfold unban_user in with_db-Answers has_db (set_unbanned roles id) there (sets id)

  pub upload-Answers :
      (lower : Char → Char) (d : Disk) (r : Request) → Answers {S = Site S T R} (upload lower d r)
  unfolding IsRefused IsUpload IsSaved
  upload-Answers lower d r = known _ (λ s. elim (upload-IsUpload lower d r s) [
    | inl (_, status, reason, e) ↦ (refuse status reason, e)
    | inr (_, _, _, _, (_, _, _, _, inl e)) ↦ (_, e)
    | inr (_, _, _, _, (_, _, _, _, inr e)) ↦ (_, e)
  ])
