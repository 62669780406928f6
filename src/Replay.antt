-- ===== src/Replay.antt =====
-- data/replay.py: the replay of recorded files.
pub mod Query
pub mod Literals
pub mod Events
pub mod Engine
pub mod Pacing
pub mod Selection
pub mod Selected
pub mod Samples
