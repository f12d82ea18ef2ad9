-- ===== src/Index.antt =====
-- lib/index: the index of images.
pub mod Hooks
pub mod Config
pub mod Image
pub mod Mapping
pub mod Bleve
pub mod Query
pub mod Documents
pub mod Store
pub mod Notifications
pub mod Service
pub mod Loop
pub mod Build
pub mod Laws
mod Tests
