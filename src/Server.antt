-- ===== src/Server.antt =====
-- The server package (server/): configuration, access rules, handlers and the proxy.
pub mod Http
pub mod Config
pub mod Middleware
pub mod Handlers
pub mod Listen
pub mod Proxy
mod Tests
