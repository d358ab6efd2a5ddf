-- ===== src/Storage/Connect.antt =====
-- internal/storage/mango.go: NewMangoStore, by the errors of the driver; `none` is no error.
use Prim.Native.String.{◌++◌}
use go_chat_x.Common.{String, Bool, true, false, Option, none, some}

pub data StoreResult : Type 0 where
  connected : StoreResult
  not_connected : (error : String) → StoreResult

-- Errors of CreateMany are ignored.
unfoldable pub new_mango_store : (connect ping : Option String) → StoreResult
new_mango_store (some e) ping = not_connected ("mongo connect: " ++ e)
new_mango_store none (some e) = not_connected ("mongo ping: " ++ e)
new_mango_store none none = connected

unfoldable pub is_connected : StoreResult → Bool
is_connected connected = true
is_connected (not_connected e) = false
