-- ===== src/State.antt =====
-- src/state.rs: the state that the handlers share.
--
-- `Arc<Upstream>` and `Arc<KeyState>` are shared: a selection, an old and a new snapshot may hold
-- the same one. What never changes in them is a plain record; what changes (the atomics and the
-- `ArcSwap`s) stands in a cell of `Memory`, and `cell` is its address.
pub mod Defs
pub mod Status
pub mod Ban
pub mod Select
pub mod Snapshot
pub mod Routes
pub mod Upstreams
pub mod Start
