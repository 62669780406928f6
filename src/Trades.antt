-- ===== src/Trades.antt =====
-- research/trades.py: the episodes in which a strategy holds a position, rebuilt from its rows.
pub mod Episode
pub mod Runs
pub mod Rows
pub mod Reconstruction
pub mod Samples
