-- ===== src/Tests/Accounts/Sessions.antt =====
-- ann registers over the REST API, and logs in.
use Prim.Native.String.{◌++◌}
use go_chat_x.Common.{false, String, ◌≡◌, ◌⊎◌, refl, arith, true, none, some, List, [], ◌∷◌}
use go_chat_x.Go.{done}
use go_chat_x.Auth.{register, store_user, insert_reply, hash_password, out_of}
use go_chat_x.Auth.Backend.{User}
use go_chat_x.Middleware.{next, auth_middleware}
use go_chat_x.Http.{Request, Body, session, json_response, refuse}
use go_chat_x.Storage.Documents.{Document}
use go_chat_x.Site.{Site}
use go_chat_x.Api.Account.{
  full_credentials, registered_reply, call_register, rest_register, rest_login,
}
use go_chat_x.Api.Service.{over_rpc, Accounts, register_over, client_of}
use go_chat_x.Api.Sessions.{rest_register-rest_login}
use go_chat_x.Tests.Scene.{lobby, world_of}
use go_chat_x.Tests.Backends.{no_sets, Cell}
use go_chat_x.Tests.Bans.{request}
use go_chat_x.GoMap.{GoMap}
use go_chat_x.Middleware.Cors.{is_preflight}
use go_chat_x.Gateway.{Deps, upload_file, route, serve}
use go_chat_x.Api.Backend.{AuthClient, failed}
use go_chat_x.Gateway.Boot.{start_gateway, with_gateway}
use go_chat_x.Gateway.Session.{login-upload}
use go_chat_x.Api.Upload.{upload}
use go_chat_x.Tests.Backends.{sets}
use go_chat_x.Tests.Routes.{deps, reading}
use go_chat_x.Tests.Uploads.{as_it_is, disk, posted, site}
use go_chat_x.Tests.Starts.{env, all_answer, none_answers, defaults, starts}
use go_chat_x.Tests.Accounts.{
  commands, logs_in, table, plain, signer, ann_row, answers, insert_in, insert_after, select_in,
}

abbrev page : Request
page = record (request "/api/register" none) {
  credentials = some (record { username = "ann"; password = "secret!" });
}

abbrev site_with : List User → Site (List Document) (Accounts table) (String → Cell)
site_with us = record { world = world_of lobby; table = (us, []); limits = no_sets; files = [] }

abbrev grpc_text : String → String
grpc_text m = "rpc error: code = Internal desc = " ++ m

registers_ann :
    rest_register (some (client_of table plain signer "s3cret" grpc_text 7 50)) page (site_with [])
    ≡ (
      done (json_response 200 (Body.message true "Registration successful")),
      site_with (ann_row ∷ []),
    )
unfolding rest_register call_register full_credentials register_over over_rpc registered_reply
    register hash_password out_of store_user insert_reply insert_in insert_after select_in
registers_ann = refl

rest_register-rest_login_example :
    ((rest_login
        (some (client_of table plain signer "s3cret" grpc_text 8 100))
        page
        (site_with (ann_row ∷ []))).0
      ≡ done (refuse 500 (grpc_text "failed to sign token")))
    ⊎ ((t : String) × (user : User) × ((rest_login
            (some (client_of table plain signer "s3cret" grpc_text 8 100))
            page
            (site_with (ann_row ∷ []))).0
          ≡ done (json_response 200 (session true "Login successful" t)))
        × (user.username ≡ "ann")
        × (auth_middleware signer "s3cret" 200 ("Bearer " ++ t) ≡ next user.id "user"))
rest_register-rest_login_example =
    rest_register-rest_login table plain signer "s3cret" grpc_text 7 8 50 100 200 page page
      (record { username = "ann"; password = "secret!" }) (site_with []) (site_with (ann_row ∷ []))
      "Registration successful" registers_ann refl refl refl answers (omega arith)

abbrev mounted : Deps (List Document) (GoMap String) (String → Cell)
mounted = record deps { tokens = signer }

abbrev no_service : AuthClient (GoMap String)
no_service = record {
  register_call = λ u p t. (failed "unavailable", t);
  login_call = λ u p t. (failed "unavailable", t);
}

-- The gateway that was started with the environment of the auth service.
abbrev started : Deps (List Document) (GoMap String) (String → Cell)
started =
    with_gateway (start_gateway defaults "" (env "JWT_SECRET") none_answers) no_service mounted

abbrev sent : Request
sent = record posted { authorization = "Bearer token" }

no_preflight : is_preflight sent ≡ false
unfolding is_preflight
no_preflight = refl

goes_to_upload : route sent.path ≡ upload_file
unfolding route
goes_to_upload = refl

login-upload_example : serve sets started reading sent site ≡ upload as_it_is disk sent site
login-upload_example =
    login-upload sets mounted env all_answer "dsn" "127.0.0.1:6379" ":50051" "s3cret" defaults ""
      none_answers no_service table plain 100 "ann" "secret!" "token" (ann_row ∷ []) commands
      reading sent site starts logs_in (omega arith) no_preflight goes_to_upload refl
