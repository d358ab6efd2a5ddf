-- ===== src/Protocol.antt =====
-- internal/gateway/ws_handle.go: the JSON messages of the WebSocket protocol. A frame is kept as
-- the value that is marshalled: json.Marshal refuses none of these values.
use go_chat_x.Common.{ℕ, suc, zero, String, List, ◌==◌, if◌then◌else◌}
use go_chat_x.Message.{ChatMessage}

-- An `int64`; `negsuc n` is -(n + 1).
pub data ℤ : Type 0 where
  pos : ℕ → ℤ
  negsuc : ℕ → ℤ

-- A message of a client.
pub record WsMsg : Type 0 where
  pub type : String
  pub token : String
  pub room_id : String
  pub to : String
  pub content : String
  pub limit : ℤ

-- What ReadMessage and json.Unmarshal give: text that is no message, or a message.
pub data Frame : Type 0 where
  malformed : Frame
  message : WsMsg → Frame

-- A message of the server, by its "type"; `chat` is the type "message".
pub data WsPayload : Type 0 where
  error : String → WsPayload
  authed : (user : String) → WsPayload
  joined : (room : String) (history : List ChatMessage) → WsPayload
  left : (room : String) → WsPayload
  chat : (from room : String) (ts : ℕ) (msg : String) → WsPayload
  private : (from to : String) (ts : ℕ) (msg : String) → WsPayload
  ack : (to : String) → WsPayload
  history : List ChatMessage → WsPayload
  pong : (ts : ℕ) → WsPayload

-- The cases of `switch m.Type`.
pub data Kind : Type 0 where
  auth join leave send private history ping unknown : Kind

unfoldable pub kind : String → Kind
kind t =
    if t == "auth"
    then auth
    else if t == "join"
    then join
    else if t == "leave"
    then leave
    else if t == "send"
    then send
    else if t == "private"
    then Kind.private
    else if t == "history"
    then Kind.history
    else if t == "ping"
    then ping
    else unknown

-- `if limit <= 0 { limit = 50 }`
unfoldable pub history_limit : ℤ → ℕ
history_limit (pos zero) = 50
history_limit (pos (suc n)) = suc n
history_limit (negsuc n) = 50
