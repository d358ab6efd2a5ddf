-- ===== src/Storage.antt =====
-- internal/storage/mango.go: MangoStore over the driver's collection. A function returns the
-- collection's new state beside its result; `none` is an error.
pub mod Documents
pub mod Pull
pub mod Delivery
pub mod History
pub mod Connect
use go_chat_x.Common.{
  ℕ, String, Bool, true, false, Option, none, some, List, [], ◌∷◌, ◌==◌, if◌then◌else◌,
}
use go_chat_x.Message.{ChatMessage}
use go_chat_x.Storage.Documents.{
  Document, Condition, to_is, room_id_is, delivered_is, natural, newest_first, Cursor, Collection,
}
use go_chat_x.Text.{itoa}
use Prim.Native.String.{◌++◌}

-- `for cur.Next(ctx) { … }`: what does not decode is skipped.
unfoldable pub decode_all : List Document → List ChatMessage
decode_all [] = []
decode_all (d ∷ ds) = let rest = decode_all ds in if d.decodes then d.message ∷ rest else rest

unfoldable pub read_cursor : Option Cursor → Option (List ChatMessage)
read_cursor none = none
read_cursor (some c) = if c.broken then none else some (decode_all c.items)

abbrev pub undelivered_for : String → List Condition
undelivered_for user_id = to_is user_id ∷ delivered_is false ∷ []

abbrev pub pull_limit : ℕ
pull_limit = 200

-- `now` is the clock's reading in nanoseconds.
unfoldable pub with_id : ℕ → ChatMessage → ChatMessage
with_id now msg = if msg.id == "" then record msg { id = itoa now ++ ("_" ++ msg.from) } else msg

module _ (C : Collection) where
  open C use {State, find, insert_one, update_many}

  unfoldable pub save_message : ℕ → ChatMessage → State → Bool × State
  save_message now msg s = insert_one (with_id now msg) s

  unfoldable pub query_history : String → ℕ → State → Option (List ChatMessage)
  query_history room_id limit s = read_cursor (find (room_id_is room_id ∷ []) newest_first limit s)

  -- Nothing is marked when nothing was read; an error while marking loses what was read.
  unfoldable pub mark_delivered :
      String → List ChatMessage → State → Option (List ChatMessage) × State
  mark_delivered user_id [] s = (some [], s)
  mark_delivered user_id (m ∷ ms) s =
      let (ok, s') = update_many (undelivered_for user_id) s in
      if ok then (some (m ∷ ms), s') else (none, s')

  unfoldable pub after_read :
      String → Option (List ChatMessage) → State → Option (List ChatMessage) × State
  after_read user_id none s = (none, s)
  after_read user_id (some ms) s = mark_delivered user_id ms s

  unfoldable pub pull_undelivered_for_user : String → State → Option (List ChatMessage) × State
  pull_undelivered_for_user user_id s =
      after_read user_id (read_cursor (find (undelivered_for user_id) natural pull_limit s)) s
