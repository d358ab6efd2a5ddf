-- ===== src/Gateway/Files.antt =====
-- The files of Upload, as the mux serves them.
use Prim.Native.String.{◌++◌, slice}
use text.Mathlib.Text.{starts_with}
use text.Mathlib.TextPositions.{starts_with-append, len-append, slice-append_right}
use go_chat_x.Common.{
  ℕ, String, ◌≡◌, refl, sym, ap, ◌∙◌, inl, inr, true, false, ◌==◌, eq_iff, Bool-cases, [], ◌∷◌,
}
use go_chat_x.Go.{done, pure}
use go_chat_x.Middleware.Limiter.{SortedSets}
use go_chat_x.Middleware.Cors.{is_preflight}
use mathlib.Core.List.{◌++◌ as ◌⧺◌}
use go_chat_x.Http.{Request, file, uploaded, json_response}
use go_chat_x.Middleware.Cors.{lists}
use go_chat_x.Api.Upload.{allowed_types, file_name, upload}
use go_chat_x.Api.Upload.Saved.{checked_type, upload-ok}
use go_chat_x.Site.{Site}
use go_chat_x.Api.Backend.{Disk}
use go_chat_x.Gateway.{Deps, uploads, route, without_uploads, Reading, serve_route, serve}

-- A text with a prefix is no text without it.
other_path :
    (prefix s path : String) → starts_with path prefix ≡ false → ((prefix ++ s) == path) ≡ false
other_path prefix s path apart = elim (Bool-cases ((prefix ++ s) == path)) [
  | inr other ↦ other
  | inl same ↦
      same
      ∙ sym (starts_with-append prefix s)
      ∙ ap (λ x. starts_with x prefix) ((eq_iff (prefix ++ s) path).0 same)
      ∙ apart
]

route-uploads : (name : String) → route ("/uploads/" ++ name) ≡ uploads
unfolding route
route-uploads name =
    rw
      (
        other "/ws" refl,
        other "/health" refl,
        other "/api/login" refl,
        other "/api/register" refl,
        other "/api/users/online" refl,
        other "/api/upload" refl,
        other "/api/admin/stats" refl,
        other "/api/admin/users" refl,
        other "/api/admin/users/ban" refl,
        other "/api/admin/users/unban" refl,
        other "/uploads" refl,
        starts_with-append "/uploads/" name,
      )
      refl
  where
    other :
        (path : String)
        → starts_with path "/uploads/" ≡ false
        → (("/uploads/" ++ name) == path) ≡ false
    other path apart = other_path "/uploads/" name path apart

without_uploads-append : (name : String) → without_uploads ("/uploads/" ++ name) ≡ name
unfolding without_uploads
without_uploads-append name =
    ap (slice ("/uploads/" ++ name) 9) (len-append "/uploads/" name)
    ∙ slice-append_right "/uploads/" name

module _ {S T : Type 0} (R : SortedSets) (D : Deps S T R.State) where
  open D use {tokens, client, roles, lower, handle_ws, file_server, redirect, srv, secret}

  serve-uploads :
      (x : Reading) (r : Request) (s : Site S T R.State) (name : String)
      → is_preflight r ≡ false
      → r.path ≡ "/uploads/" ++ name
      → serve R D x r s ≡ (done (file_server "./uploads" name), s)
  unfolding serve serve_route pure
  serve-uploads x r s name own to_file =
      rw (own, to_file, route-uploads name, without_uploads-append name) refl

  -- A POST of a file of an allowed type is saved and answered with status 200 when the file system
  -- takes it; a request for the address in that answer then gets what the file server has under the
  -- name of the saved file, in the directory of uploads, with or without a token.
  pub upload-served :
      (d : Disk) (x : Reading) (r r' : Request) (s : Site S T R.State) (filename : String)
      (size : ℕ)
      → r.method ≡ "POST"
      → r.form ≡ file filename size
      → lists (checked_type lower filename) allowed_types ≡ true
      → d.makes_dir ≡ true
      → d.creates ≡ true
      → d.copies ≡ true
      → is_preflight r' ≡ false
      → r'.path ≡ "/uploads/" ++ file_name d.nanos d.nanos_at (checked_type lower filename)
      → (s' : Site S T R.State) × (upload lower d r s
          ≡ (done (json_response 200 (uploaded r'.path filename size)), s'))
        × (s'.files ≡ s.files ⧺ file_name d.nanos d.nanos_at (checked_type lower filename) ∷ [])
        × (serve R D x r' s' ≡ (
          done (
              file_server "./uploads" (file_name d.nanos d.nanos_at (checked_type lower filename))),
          s',
        ))
  upload-served d x r r' s filename size post has_file listed made created copied own to_file = (
    record s { files = s.files ⧺ file_name d.nanos d.nanos_at (checked_type lower filename) ∷ [] },
    upload-ok lower d r s filename size post has_file listed made created copied
        ∙ ap
            (λ (url : String). (
              done (json_response 200 (uploaded url filename size)),
              record s {
                files = s.files ⧺ file_name d.nanos d.nanos_at (checked_type lower filename) ∷ [];
              },
            ))
            (sym to_file),
    refl,
    serve-uploads x r'
        (record s {
          files = s.files ⧺ file_name d.nanos d.nanos_at (checked_type lower filename) ∷ [];
        })
        (file_name d.nanos d.nanos_at (checked_type lower filename)) own to_file,
  )
