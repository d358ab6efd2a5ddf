-- ===== src/Tests/Bans.antt =====
-- Bans of users that are online, of an admin, and of a user who then authenticates.
use go_chat_x.Common.{String, ◌≡◌, refl, true, Option, none, some, List, [], ◌∷◌, arith, update}
use go_chat_x.GoMap.{GoMap, lookup, insert}
use go_chat_x.Go.{done, pure, gets, modify, if_some, ◌>>=◌}
use go_chat_x.Protocol.{message, kind, auth}
use go_chat_x.Storage.Documents.{Document}
use go_chat_x.Http.{Request, Body, unreadable, json_response}
use go_chat_x.Hub.{Hub, get_online_client, close_conn}
use go_chat_x.World.{Env, no_session, on_hub}
use go_chat_x.Ws.Limits.{one_more, turned_away}
use go_chat_x.Ws.Loop.{on_frame}
use go_chat_x.Ws.Auth.{accepted}
use go_chat_x.Site.{Site, on_chat}
use go_chat_x.Api.Admin.{
  on_db, set_banned, full_id, disconnect_user, banned_reply, ban_user, admin_ban_user,
}
use go_chat_x.Api.Admin.Bans.{cut, admin_ban_user-ok}
use go_chat_x.Api.Admin.Entry.{admin_ban_user-on_frame}
use go_chat_x.Tests.Memory.{memory}
use go_chat_x.Tests.Scene.{service, strict, msg, lobby, world_of}
use go_chat_x.Tests.Backends.{no_sets, ban_role, ban_in, role_table, Cell}

abbrev pub request : String → Option String → Request
request path user_id = record {
  method = "POST";
  path = path;
  authorization = "Bearer root";
  forwarded_for = "";
  real_ip = "10.0.0.1";
  remote_addr = "";
  origin = "";
  credentials = none;
  user_id = user_id;
  form = unreadable;
}

abbrev pub roles : GoMap String
roles = ("ann", "user") ∷ ("root", "admin") ∷ []

abbrev pub site_of : GoMap String → Hub → Site (List Document) (GoMap String) (String → Cell)
site_of t h = record { world = world_of h; table = t; limits = no_sets; files = [] }

abbrev pub after_ban : Site (List Document) (GoMap String) (String → Cell)
after_ban = record (site_of (insert "ann" "banned" roles) lobby) {
  world = world_of (record lobby { shut = update lobby.shut 0 true });
}

bans_ann :
    admin_ban_user role_table true
      (request "/api/admin/users/ban" (some "ann"))
      (site_of roles lobby)
    ≡ (done (json_response 200 (Body.message true "user banned")), after_ban)
unfolding admin_ban_user ban_user on_db set_banned full_id ban_in ban_role lookup insert
    banned_reply on_chat on_hub disconnect_user get_online_client gets close_conn modify if_some
    pure ◌>>=◌
bans_ann = refl

admin_ban_user-ok_example :
    (lookup "ann" after_ban.table ≡ some "banned")
    × (after_ban ≡ record (site_of roles lobby) {
      world = record (world_of lobby) { hub = cut "ann" lobby };
      table = after_ban.table;
    })
admin_ban_user-ok_example =
    admin_ban_user-ok role_table true (request "/api/admin/users/ban" (some "ann"))
      (site_of roles lobby) after_ban (Body.message true "user banned") "ann" refl bans_ann

-- The connection 5 has not authenticated yet.
abbrev reading_table : Env
reading_table = record strict { role_of = λ id. lookup id after_ban.table }

auth_kind : kind "auth" ≡ auth
unfolding kind
auth_kind = refl

accepts_ann : accepted (reading_table.validate "ann") ≡ some "ann"
unfolding accepted
accepts_ann = refl

admin_ban_user-on_frame_example :
    on_frame memory service reading_table 5
      (message (msg "auth" "ann" "" "" ""))
      no_session
      after_ban.world
    ≡ (done (one_more no_session), turned_away 5 "account banned" after_ban.world)
admin_ban_user-on_frame_example =
    admin_ban_user-on_frame memory role_table service (request "/api/admin/users/ban" (some "ann"))
      (site_of roles lobby) after_ban (Body.message true "user banned") "ann" reading_table 5
      (msg "auth" "ann" "" "" "") no_session refl bans_ann refl refl auth_kind (omega arith)
      accepts_ann refl refl
