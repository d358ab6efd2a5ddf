-- ===== src/Storage/Documents.antt =====
-- The MongoDB collection of messages, as the driver documents it: a parameter of the storage layer.
use Prim.Native.Nat.{min}
use mathlib.Core.List.{Perm}
use go_chat_x.Common.{
  ℕ, ◌≤◌, String, ◌≡◌, Bool, true, false, not, ◌&&◌, Option, some, List, [], ◌∷◌, ◌++◌, map, length,
  ◌==◌, if◌then◌else◌, All,
}
use go_chat_x.Message.{ChatMessage}

-- A stored message; `decodes` is false for one that Decode refuses.
pub record Document : Type 0 where
  pub message : ChatMessage
  pub decodes : Bool

-- One condition of a filter. `to` and `room_id` are stored with `omitempty`, so that a document has
-- no such field for an empty text, and no condition on it holds.
pub data Condition : Type 0 where
  to_is : String → Condition
  room_id_is : String → Condition
  delivered_is : Bool → Condition

abbrev pub same_bool : Bool → Bool → Bool
same_bool true b = b
same_bool false b = not b

abbrev pub given_and_equal : String → String → Bool
given_and_equal stored wanted = not (stored == "") && (stored == wanted)

unfoldable pub holds : Condition → ChatMessage → Bool
holds (to_is u) m = given_and_equal m.to u
holds (room_id_is r) m = given_and_equal m.room_id r
holds (delivered_is b) m = same_bool b m.delivered

unfoldable pub hold : List Condition → ChatMessage → Bool
hold [] m = true
hold (c ∷ cs) m = holds c m && hold cs m

unfoldable pub select : List Condition → List Document → List Document
select cs [] = []
select cs (d ∷ ds) = let rest = select cs ds in if hold cs d.message then d ∷ rest else rest

abbrev pub mark : List Condition → Document → Document
mark cs d =
    if hold cs d.message then record d { message = record d.message { delivered = true } } else d

-- Newest first.
abbrev pub IsNewestFirst : List Document → Type 0
IsNewestFirst [] = Unit
IsNewestFirst (d ∷ ds) = All (λ e. e.message.timestamp ≤ d.message.timestamp) ds × IsNewestFirst ds

pub data Order : Type 0 where
  natural : Order
  newest_first : Order

-- What the iteration over a cursor meets; `broken` is whether `Err` reports an error in the end.
pub record Cursor : Type 0 where
  pub items : List Document
  pub broken : Bool

pub record Collection : Type 1 where
  pub State : Type 0
  -- the stored documents, oldest insertion first; no call shows this order
  pub documents : State → List Document
  -- Find with a sort order and a limit above 0; `none` is an error
  pub find : List Condition → Order → ℕ → State → Option Cursor
  -- InsertOne, and UpdateMany of `{"$set": {"delivered": true}}`: whether the call succeeded
  pub insert_one : ChatMessage → State → Bool × State
  pub update_many : List Condition → State → Bool × State
  -- A cursor that ends without an error gave the selected documents, up to the limit.
  pub find_found :
      (cs : List Condition) (o : Order) (limit : ℕ) (s : State) (c : Cursor)
      → find cs o limit s ≡ some c
      → c.broken ≡ false
      → (rest : List Document) × Perm (c.items ++ rest) (select cs (documents s))
        × (length c.items ≡ min limit (length (select cs (documents s))))
  pub find_sorted :
      (cs : List Condition) (limit : ℕ) (s : State) (c : Cursor)
      → find cs newest_first limit s ≡ some c
      → IsNewestFirst c.items
  pub inserted :
      (m : ChatMessage) (s : State)
      → (insert_one m s).0 ≡ true
      → documents (insert_one m s).1 ≡ documents s ++ record { message = m; decodes = true } ∷ []
  pub updated :
      (cs : List Condition) (s : State)
      → (update_many cs s).0 ≡ true
      → documents (update_many cs s).1 ≡ map (mark cs) (documents s)
