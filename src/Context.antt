-- ===== src/Context.antt =====
-- The context engine, context_engine/: event ingestion and the assembly of briefs.
pub mod Briefs
pub mod Customers
pub mod Linking
pub mod SemanticCache
pub mod Quarantine
pub mod SlowCalls
pub mod Repository
pub mod EventBus
pub mod Ingestion
