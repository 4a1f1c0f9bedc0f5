-- ===== src/Orchestrator/Pipeline.antt =====
-- `DecisionPipeline` of orchestrator/decision_pipeline.py over its in-memory parts.
pub mod Store
pub mod Defs
pub mod Methods
pub mod Views
pub mod Trail
pub mod Local
pub mod Running
pub mod Deciding
pub mod Sound
pub mod Handling
pub mod Voting
pub mod Human
pub mod Refusal
pub mod History
pub mod Once
pub mod Pending
pub mod Stranded
mod Tests
pub mod Tenants
