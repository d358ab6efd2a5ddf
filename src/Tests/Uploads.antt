-- ===== src/Tests/Uploads.antt =====
-- An upload of a picture, and names of files.
use Prim.Native.Char.{Char}
use go_chat_x.Common.{String, ◌≡◌, ◌⊎◌, refl, true, none, List}
use go_chat_x.GoMap.{GoMap}
use go_chat_x.Http.{Request, file}
use go_chat_x.Storage.Documents.{Document}
use go_chat_x.Site.{Site}
use go_chat_x.Text.Parts.{ext, ext_from, to_lower}
use go_chat_x.Middleware.Cors.{lists}
use go_chat_x.Api.Backend.{Disk}
use go_chat_x.Api.Upload.{allowed_types, upload}
use go_chat_x.Api.Upload.Saved.{IsRefused, IsUpload, upload-IsUpload}
use go_chat_x.Tests.Scene.{lobby}
use go_chat_x.Tests.Backends.{Cell}
use go_chat_x.Tests.Bans.{request, roles, site_of}

abbrev pub as_it_is : Char → Char
as_it_is c = c

abbrev pub disk : Disk
disk = record { makes_dir = true; creates = true; copies = true; nanos = 17; nanos_at = λ i. i }

abbrev pub posted : Request
posted = record (request "/api/upload" none) { form = file "a/cat.png" 100 }

abbrev pub site : Site (List Document) (GoMap String) (String → Cell)
site = site_of roles lobby

pub png : lists (to_lower as_it_is (ext "a/cat.png")) allowed_types ≡ true
unfolding lists ext ext_from to_lower
png = refl

upload-IsUpload_example :
    IsRefused {R = String → Cell} as_it_is disk site (upload as_it_is disk posted site)
    ⊎ IsUpload {R = String → Cell} as_it_is disk posted.form site (upload as_it_is disk posted site)
upload-IsUpload_example = upload-IsUpload as_it_is disk posted site
