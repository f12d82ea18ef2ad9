-- ===== src/Cmd.antt =====
-- cmd/: the commands of the client.
pub mod Names
pub mod Root
pub mod Config
pub mod Label
pub mod Requests
pub mod Hooktest
pub mod Serve
pub mod Remote
pub mod Delete
pub mod Show
pub mod Version
pub mod Password
pub mod Search
mod Tests
