-- ===== src/Tests.antt =====
-- Concrete inputs, and what the theorems say of them.
mod World
mod Disk
mod Keys
mod Upstreams
mod Streams
mod Interface
mod Routing
mod Cooldowns
mod Logging
mod Accounts
mod Serving
