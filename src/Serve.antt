-- ===== src/Serve.antt =====
-- The server: the modules for serve/autotree_serve.
pub mod Quota
pub mod Json
pub mod Config
pub mod Words
pub mod Auth
pub mod Payloads
pub mod Middleware
pub mod Runner
mod Tests
