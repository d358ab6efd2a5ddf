-- ===== src/Message.antt =====
-- internal/storage/mango.go: a chat message, of a room or between two users. Its time is in
-- milliseconds, which is what MongoDB keeps and what the gateway sends.
use go_chat_x.Common.{ℕ, String, Bool}

pub record ChatMessage : Type 0 where
  pub id : String
  pub from : String
  pub to : String
  pub room_id : String
  pub content : String
  pub timestamp : ℕ
  pub delivered : Bool
