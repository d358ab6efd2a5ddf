-- ===== src/Hub/Rules.antt =====
-- What a property of the maps and channels shows of each function on them, so that every case of
-- the read loop keeps it.
use go_chat_x.Common.{ℕ, String}
use go_chat_x.Go.Keeps.{Keeps, keeps_rules}
use go_chat_x.Protocol.{WsPayload}
use go_chat_x.Hub.{
  Client, Hub, try_send, close_conn, close_chan, register_online, unregister_online, add_client,
  remove_client, broadcast, allocate_room, create_room, get_or_create_room, remove_empty_room,
  get_online_client,
}

module _ {P : Hub → Type 0} where
  -- What keeps a new room keeps getOrCreateRoom.
  pub finds_of :
      ((r : String) → Keeps P (allocate_room r)) → (r : String) → Keeps P (get_or_create_room r)
  unfolding get_or_create_room create_room
  finds_of allocates r = search (keeps_rules, allocates) depth 9

-- The functions that leave alone who is online and who is in which room.
pub record QuietRules (P : Hub → Type 0) : Type 0 where
  pub sends : (k : ℕ) (b : WsPayload) → Keeps P (try_send k b)
  pub shuts : (k : ℕ) → Keeps P (close_conn k)
  pub closes : (k : ℕ) → Keeps P (close_chan k)
  pub finds : (r : String) → Keeps P (get_or_create_room r)
  pub drops : (r : String) → Keeps P (remove_empty_room r)

-- All functions that change a map or a channel; those that only read keep every property.
pub record HubRules (P : Hub → Type 0) : Type 0 where
  pub quietly : QuietRules P
  pub registers : (c : Client) → Keeps P (register_online c.user_id c)
  pub unregisters : (u : String) → Keeps P (unregister_online u)
  pub adds : (p : ℕ) (c : Client) → Keeps P (add_client p c)
  pub removes : (p : ℕ) (c : Client) → Keeps P (remove_client p c)

module _ {P : Hub → Type 0} where
  pub get_online_client-Keeps : (u : String) → Keeps P (get_online_client u)
  unfolding get_online_client
  get_online_client-Keeps u = search keeps_rules

module _ {P : Hub → Type 0} (quiet : QuietRules P) where
  pub try_send-Keeps : (k : ℕ) (b : WsPayload) → Keeps P (try_send k b)
  try_send-Keeps k b = quiet.sends k b

  pub close_conn-Keeps : (k : ℕ) → Keeps P (close_conn k)
  close_conn-Keeps k = quiet.shuts k

  pub close_chan-Keeps : (k : ℕ) → Keeps P (close_chan k)
  close_chan-Keeps k = quiet.closes k

  pub remove_empty_room-Keeps : (r : String) → Keeps P (remove_empty_room r)
  remove_empty_room-Keeps r = quiet.drops r

  pub get_or_create_room-Keeps : (r : String) → Keeps P (get_or_create_room r)
  get_or_create_room-Keeps r = quiet.finds r

  ruleset send_rules = (keeps_rules, try_send-Keeps)

  pub broadcast-Keeps : (p : ℕ) (b : WsPayload) → Keeps P (broadcast p b)
  unfolding broadcast
  broadcast-Keeps p b = search send_rules depth 9

module _ {P : Hub → Type 0} (rules : HubRules P) where
  pub HubRules-quietly : QuietRules P
  HubRules-quietly = rules.quietly

  pub register_online-Keeps : (c : Client) → Keeps P (register_online c.user_id c)
  register_online-Keeps c = rules.registers c

  pub unregister_online-Keeps : (u : String) → Keeps P (unregister_online u)
  unregister_online-Keeps u = rules.unregisters u

  pub add_client-Keeps : (p : ℕ) (c : Client) → Keeps P (add_client p c)
  add_client-Keeps p c = rules.adds p c

  pub remove_client-Keeps : (p : ℕ) (c : Client) → Keeps P (remove_client p c)
  remove_client-Keeps p c = rules.removes p c

pub ruleset quiet_rules = (
  keeps_rules, try_send-Keeps, close_conn-Keeps, close_chan-Keeps, get_or_create_room-Keeps,
  remove_empty_room-Keeps, broadcast-Keeps, get_online_client-Keeps,
)

pub ruleset hub_rules = (
  quiet_rules, HubRules-quietly, register_online-Keeps, unregister_online-Keeps, add_client-Keeps,
  remove_client-Keeps,
)
