-- ===== src/Api/Upload/Saved.antt =====
-- What Upload leaves on the disk, and what it answers.
use Prim.Native.Char.{Char}
use Prim.Native.String.{◌++◌}
use mathlib.Core.List.{◌++◌ as ◌⧺◌}
use go_chat_x.Common.{ℕ, String, ◌≡◌, ◌⊎◌, refl, inl, inr, true, false, [], ◌∷◌, Bool-cases, ◌==◌}
use go_chat_x.Go.{Result, done, pure}
use go_chat_x.Text.Parts.{ext, to_lower}
use go_chat_x.Middleware.Cors.{lists}
use go_chat_x.Http.{
  Request, Response, Form, unreadable, no_file, file, uploaded, json_response, refuse,
}
use go_chat_x.Site.{Site}
use go_chat_x.Api.Backend.{Disk}
use go_chat_x.Api.Upload.{allowed_types, file_name, save_upload, upload_form, upload}
use go_chat_x.Api.Upload.Names.{has_slash, file_name-ext}

-- The extension that is checked and kept.
abbrev pub checked_type : (Char → Char) → String → String
checked_type lower filename = to_lower lower (ext filename)

module _ {S T R : Type 0} (lower : Char → Char) (d : Disk) where
  -- Nothing is saved, and the answer is an error.
  unfoldable pub IsRefused : Site S T R → Result Response × Site S T R → Type 0
  IsRefused s (r, s') =
      (s' ≡ s) × (status : ℕ) × (reason : String) × (r ≡ done (refuse status reason))

  -- A file of the type `e` is created, and the answer is its address, or an error.
  unfoldable pub IsSaved :
      (e filename : String) (size : ℕ) → Site S T R → Result Response × Site S T R → Type 0
  IsSaved e filename size s (r, s') =
      (name : String) × (s' ≡ record s { files = s.files ⧺ name ∷ [] })
      × (has_slash name ≡ false)
      × (ext name ≡ e)
      × ((r ≡ done (json_response 200 (uploaded ("/uploads/" ++ name) filename size)))
          ⊎ (r ≡ done (refuse 500 "server error")))

  save_upload-IsSaved :
      (filename e : String) (size : ℕ) (s : Site S T R)
      → lists e allowed_types ≡ true
      → IsRefused s (save_upload lower d filename e size s)
        ⊎ IsSaved e filename size s (save_upload lower d filename e size s)
  unfolding save_upload IsRefused IsSaved
  save_upload-IsSaved filename e size s listed =
      let (plain, typed) = file_name-ext d.nanos d.nanos_at e listed in
      elim (Bool-cases d.makes_dir) [
        | inr unmade ↦ rw unmade (inl (refl, 500, "server error", refl))
        | inl made ↦ rw made (elim (Bool-cases d.creates) [
          | inr uncreated ↦ rw uncreated (inl (refl, 500, "server error", refl))
          | inl created ↦ rw created (
              inr (
                file_name d.nanos d.nanos_at e,
                refl,
                plain,
                typed,
                elim (Bool-cases d.copies) [
                  | inl copied ↦ inl (rw copied refl)
                  | inr uncopied ↦ inr (rw uncopied refl)
                ],
              ))
        ])
      ]

  unfoldable pub IsUpload : Form → Site S T R → Result Response × Site S T R → Type 0
  unfolding IsSaved
  IsUpload form s after =
      (filename : String) × (size : ℕ) × (form ≡ file filename size)
      × (lists (checked_type lower filename) allowed_types ≡ true)
      × IsSaved (checked_type lower filename) filename size s after

  upload_form-IsUpload :
      (form : Form) (s : Site S T R)
      → IsRefused s (upload_form lower d form s) ⊎ IsUpload form s (upload_form lower d form s)
  unfolding upload_form pure IsRefused IsUpload
  upload_form-IsUpload unreadable s = inl (refl, 400, "file too large (max 10MB)", refl)
  upload_form-IsUpload no_file s = inl (refl, 400, "file field required", refl)
  upload_form-IsUpload (file filename size) s =
      elim (Bool-cases (lists (checked_type lower filename) allowed_types)) [
        | inr other ↦ rw other (inl (refl, 400, "file type not allowed", refl))
        | inl listed ↦
            rw listed
              (elim (save_upload-IsSaved filename (checked_type lower filename) size s listed) [
                | inl refused ↦ inl refused
                | inr saved ↦ inr (filename, size, refl, listed, saved)
              ])
      ]

  -- Upload answers with an error and changes nothing, or the form has a file of an allowed type and
  -- one file is created, whose name has that extension and no slash, so that it lies in the
  -- directory of uploads; the answer is then its address with status 200, or status 500.
  pub upload-IsUpload :
      (r : Request) (s : Site S T R)
      → IsRefused s (upload lower d r s) ⊎ IsUpload r.form s (upload lower d r s)
  unfolding upload pure IsRefused
  upload-IsUpload r s = elim (Bool-cases (r.method == "POST")) [
    | inl post ↦ rw post (upload_form-IsUpload r.form s)
    | inr other ↦ rw other (inl (refl, 405, "method not allowed", refl))
  ]

  -- A POST of a file of an allowed type is saved and answered with status 200 when the file system
  -- takes it.
  pub upload-ok :
      (r : Request) (s : Site S T R) (filename : String) (size : ℕ)
      → r.method ≡ "POST"
      → r.form ≡ file filename size
      → lists (checked_type lower filename) allowed_types ≡ true
      → d.makes_dir ≡ true
      → d.creates ≡ true
      → d.copies ≡ true
      → upload lower d r s ≡ (
        done (
            json_response 200 (
              uploaded
                ("/uploads/" ++ file_name d.nanos d.nanos_at (checked_type lower filename))
                filename
                size)),
        record s {
          files = s.files ⧺ file_name d.nanos d.nanos_at (checked_type lower filename) ∷ [];
        },
      )
  unfolding upload upload_form save_upload
  upload-ok r s filename size post has_file listed made created copied =
      rw (post, has_file, listed, made, created, copied) refl
