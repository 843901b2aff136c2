-- ===== src/Admin.antt =====
-- src/admin.rs: the admin interface.
pub mod Defs
pub mod Body
pub mod Keys
pub mod Reload
pub mod Routes
pub mod Accounts
pub mod Pages
pub mod Upstreams
