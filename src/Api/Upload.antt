-- ===== src/Api/Upload.antt =====
-- internal/gateway/api.go: Upload and randomString.
pub mod Names
pub mod Saved
use Prim.Native.Char.{Char}
use Prim.Native.String.{◌++◌}
use Prim.Native.Nat.{◌%◌}
use mathlib.Core.List.{◌++◌ as ◌⧺◌}
use go_chat_x.Common.{ℕ, zero, suc, String, Bool, List, [], ◌∷◌, ◌==◌, if◌then◌else◌}
use go_chat_x.Go.{Go, done, pure, ◌>>=◌}
use go_chat_x.Text.{numeral, itoa}
use go_chat_x.Text.Parts.{ext, to_lower}
use go_chat_x.Middleware.Cors.{lists}
use go_chat_x.Http.{
  Request, Response, Form, unreadable, no_file, file, uploaded, json_response, refuse,
}
use go_chat_x.Site.{Site}
use go_chat_x.Api.Backend.{Disk}

abbrev pub letters : List String
letters =
    "a" ∷ "b" ∷ "c" ∷ "d" ∷ "e" ∷ "f" ∷ "g" ∷ "h" ∷ "i" ∷ "j" ∷ "k" ∷ "l" ∷ "m" ∷ "n" ∷ "o" ∷ "p"
    ∷ "q" ∷ "r" ∷ "s" ∷ "t" ∷ "u" ∷ "v" ∷ "w" ∷ "x" ∷ "y" ∷ "z" ∷ "0" ∷ "1" ∷ "2" ∷ "3" ∷ "4" ∷ "5"
    ∷ "6" ∷ "7" ∷ "8" ∷ "9" ∷ []

-- The letters from `i` on, of which `n` are left; `nanos_at i` is what the clock reads at one.
unfoldable pub random_from : (nanos_at : ℕ → ℕ) → (i n : ℕ) → String
random_from nanos_at i zero = ""
random_from nanos_at i (suc n) = numeral (nanos_at i % 36) letters ++ random_from nanos_at (suc i) n

unfoldable pub random_string : (nanos_at : ℕ → ℕ) → ℕ → String
random_string nanos_at n = random_from nanos_at 0 n

abbrev pub allowed_types : List String
allowed_types =
    ".jpg" ∷ ".jpeg" ∷ ".png" ∷ ".gif" ∷ ".webp" ∷ ".pdf" ∷ ".doc" ∷ ".docx" ∷ ".txt" ∷ ".zip"
    ∷ ".mp3" ∷ ".mp4" ∷ ".wav" ∷ []

-- "%d_%s%s"
unfoldable pub file_name : (nanos : ℕ) (nanos_at : ℕ → ℕ) (ext : String) → String
file_name nanos nanos_at e = itoa nanos ++ ("_" ++ (random_string nanos_at 8 ++ e))

module _ {S T R : Type 0} (lower : Char → Char) (d : Disk) where
  -- From os.MkdirAll on. os.Create comes before io.Copy, whose failure leaves the file.
  unfoldable pub save_upload : (filename ext : String) → (size : ℕ) → Go (Site S T R) Response
  save_upload filename e size s =
      if d.makes_dir
      then (if d.creates
          then (
            (if d.copies
                then done (
                    json_response 200
                      (uploaded ("/uploads/" ++ file_name d.nanos d.nanos_at e) filename size))
                else done (refuse 500 "server error")),
            record s { files = s.files ⧺ file_name d.nanos d.nanos_at e ∷ [] },
          )
          else (done (refuse 500 "server error"), s))
      else (done (refuse 500 "server error"), s)

  unfoldable pub upload_form : Form → Go (Site S T R) Response
  upload_form unreadable = pure (refuse 400 "file too large (max 10MB)")
  upload_form no_file = pure (refuse 400 "file field required")
  upload_form (file filename size) =
      let e = to_lower lower (ext filename) in
      if lists e allowed_types
      then save_upload filename e size
      else pure (refuse 400 "file type not allowed")

  unfoldable pub upload : Request → Go (Site S T R) Response
  upload r =
      if r.method == "POST" then upload_form r.form else pure (refuse 405 "method not allowed")
