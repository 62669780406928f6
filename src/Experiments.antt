-- ===== src/Experiments.antt =====
-- The workflows of research/experiments that run over the registry.
pub mod Registration
pub mod Planned
pub mod PlannedTrials
pub mod Plans
pub mod PlanSamples
pub mod Runner
pub mod Moves
pub mod Settled
pub mod Returned
pub mod Leaves
pub mod Successes
pub mod Accounted
pub mod CampaignLeaves
pub mod Calls
pub mod CampaignRunner
pub mod Counts
pub mod Trials
pub mod Samples
