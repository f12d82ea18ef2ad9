-- ===== src/Registry.antt =====
-- lib/registry: the client of a docker registry.
pub mod Walk
pub mod Repository
pub mod Repositories
pub mod Client
pub mod Connect
mod Tests
