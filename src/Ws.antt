-- ===== src/Ws.antt =====
-- internal/gateway/ws_handle.go: HandleWS, one function for each case of its switch. `k` is the
-- number of the connection. A case returns the local variables beside its effects; `continue` and
-- the `break`s, which leave only the switch, all go on with the next frame.
pub mod Auth
pub mod Chat
pub mod Loop
pub mod Holds
pub mod Sound
pub mod Shows
pub mod Acts
pub mod Watch
pub mod Ids
pub mod Leaving
pub mod Cleanup
pub mod Live
pub mod Frames
pub mod Gate
pub mod Offline
pub mod Online
pub mod Delivery
pub mod Rooms
pub mod Race
pub mod Limits
