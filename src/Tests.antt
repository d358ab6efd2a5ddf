-- ===== src/Tests.antt =====
-- The theorems at concrete inputs, and runs of the model that can be followed in the source.
mod Memory
mod Scene
mod Runs
mod Order
mod Clocks
mod Stores
mod Chats
mod Rooms
mod Accounts
mod Backends
mod Bans
mod Limits
mod Uploads
mod Starts
mod Routes
