-- ===== src/Orchestrator.antt =====
-- The decision service, orchestrator/: approval queue, policies, executor, audit log and pipeline.
pub mod Approval
pub mod Quorum
pub mod Audit
pub mod Policy
pub mod Executor
pub mod Pipeline
pub mod Planner
pub mod EventListener
