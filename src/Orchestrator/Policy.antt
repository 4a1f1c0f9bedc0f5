-- ===== src/Orchestrator/Policy.antt =====
-- orchestrator/policy/: the parts that the engines share, and the two engines whose decisions are
-- lookups. The LLM-backed engines stand on a client that is not in this repository.
mod Defs
pub mod Declarative
pub mod PythonRules
pub mod Resolution
pub mod Agreement
mod Tests
unfoldable pub use Defs.*
