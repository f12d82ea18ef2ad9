-- ===== src/System.antt =====
-- The parts of dim together: the client's calls against the server's handlers.
pub mod Http
pub mod Form
pub mod Search
pub mod Label
pub mod Notify
mod Tests
