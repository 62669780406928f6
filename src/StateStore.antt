-- ===== src/StateStore.antt =====
-- data/state_store.py: the SQLite state store. A table is the list of its rows in rowid order; a
-- method is an action on the database. `now` is the value that `now_ms()` returns.
pub mod Listing
pub mod Schema
pub mod Files
pub mod Jobs
pub mod Ops
pub mod Integrity
pub mod Sorted
pub mod Writes
pub mod Permanence
pub mod FileMachine
pub mod FileHistory
pub mod FileTrace
pub mod Samples
