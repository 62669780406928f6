-- ===== src/Registry.antt =====
-- research/experiments/store.py: the research registry. As in the state store, a table is the list
-- of its rows in rowid order, a method is an action on the database, and `now` is what `now_ms()`
-- returns. Metric values are float64: their type is a parameter, with the tests that the code makes.
pub mod Status
pub mod Schema
pub mod Runs
pub mod Reads
pub mod Outputs
pub mod Campaigns
pub mod Experiments
pub mod Registered
pub mod Promotions
pub mod Stages
pub mod RunInvariant
pub mod RunGrowth
pub mod RunHistory
pub mod Attempts
pub mod AddedOutputs
pub mod Completion
pub mod Ops
pub mod Soundness
pub mod RunMachine
pub mod RunTrace
pub mod Permanent
pub mod OutputsKept
pub mod History
pub mod Registration
pub mod Atomic
pub mod Samples
