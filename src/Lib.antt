-- ===== src/Lib.antt =====
-- PennyCore: a context engine that ingests customer events, and an orchestrator that turns an
-- event into a proposed action, asks a policy what to do with it, collects human approvals, runs
-- it and keeps an audit trail.
--
-- An event is posted to the context engine, stored once per idempotency key and announced on the
-- bus (Context). The planner proposes an action for it; DecisionPipeline.handle_proposal stores
-- the action, writes audit rows, asks the policy engine, and rejects, queues or runs the action.
-- Humans vote through approve_action and reject_action. The pipeline calls its four
-- collaborators in a fixed order, and holds one lock for the whole of a call that writes, so
-- that a call is one step of the model.
--
-- The files:
-- - Exec: methods that change an object and may raise, as state passing; what was written before
--   a raise stays written. Exceptions are values without their messages, but for those of the
--   executor, which the audit log records.
-- - Dict: Python dicts in insertion order, as association lists, with their laws. Prelude:
--   shared names.
-- - Contracts: the Pydantic models of contracts/ as records and data types. A validator that can
--   fail where a model is built is a test (fits, fits_optional, and the tests named for a
--   model). Times are counts of microseconds.
-- - Orchestrator/Approval: InMemoryApprovalQueue of orchestrator/approval_queue.py (enqueue,
--   approve, reject, list_pending, get as find, is_pending). Its children hold the invariant,
--   what each call preserves and leaves alone, the refinement, runs of votes, and the listing.
-- - Orchestrator/Quorum: QuorumRule and QuorumPolicy of orchestrator/quorum.py; resolve is
--   rule_for.
-- - Orchestrator/Audit: InMemoryAuditLog of orchestrator/audit.py.
-- - Orchestrator/Policy: DeclarativePolicyEngine and PythonRulesPolicyEngine of
--   orchestrator/policy/.
-- - Orchestrator/Executor: ActionExecutor and the mock handlers of orchestrator/executor.py.
-- - Orchestrator/Pipeline: InMemoryActionStore (Store) and DecisionPipeline (Defs, Methods) of
--   orchestrator/decision_pipeline.py. Views, Local, Running, Deciding, Voting, Human and
--   Refusal show step by step what a call does to one action; Trail is the state machine that an
--   audit trail replays; Sound is the invariant; History is reachability by calls; Once,
--   Pending, Tenants and Stranded are about single questions.
-- - Context/Repository, Context/EventBus, Context/Ingestion: InMemoryEventRepository,
--   InMemoryEventBus and ingest_event of context_engine/.
-- - Context/Customers, Context/Linking: InMemoryCustomerRepository of
--   context_engine/customer_repository.py and resolve_customer of context_engine/linking.py.
--   Customers/Links holds the invariant of the index and what each write may do to it;
--   Linking/Hints the extraction and the normal forms; Walk, Attaching and Resolving follow the
--   steps of a resolution; Guarantees, Replays, Races and Creating say what callers rely on.
--   Contracts/Customers and Contracts/Texts: the contract and what is used of Python's str.
-- - Context/SemanticCache: SemanticCache and CachingLLMClient of
--   context_engine/llm/semantic_cache.py. Namespaces is about one tenant's entries and index,
--   Validity, Lookups and Stores about the cache, Calls about sequences of calls, Client about
--   the wrapped client.
-- - Rings: the bounded list for each tenant that four buffers share. Context/Quarantine and
--   Context/SlowCalls: context_engine/quarantine.py, slow_call_queue.py and timeouts.py.
-- - Orchestrator/Planner: propose_action, ProposalsBuffer and the handlers of
--   orchestrator/planner.py; Parsing is _parse_llm_response, and Reading and Outcomes say what
--   is read from an answer and how a call may end.
-- - Orchestrator/EventListener: RecentEventsBuffer, InMemoryEventListener and
--   make_buffered_handler of orchestrator/event_listener.py.
-- - Context/Briefs: pack_segments of context_engine/brief_assembly.py and the token estimate of
--   context_engine/retrieval/recency.py.
--
-- Parameters: random ids and clock readings are arguments of the calls that take them. A handler
-- of the executor and a subscriber of the bus are functions that may raise. The policy that a
-- pipeline call meets is a function, so that every engine is covered, and it may differ from
-- call to call.
--
-- Unicode's tables of whitespace and digits and str.lower are parameters of linking, with their
-- documented behaviour as hypotheses. Floating-point numbers (embeddings, similarities, costs)
-- are types with operations that are parameters of the semantic cache. What other threads do to
-- the customer repository between the two steps of a resolution is a function, an argument of
-- resolve_customer. json.loads, which may raise, and splitlines, str, repr and the sanitiser of
-- prompts are parameters of the planner, and the fate of a call in its thread is an argument of
-- with_deadline.
--
-- Fuel: the loop that trims a brief runs on the number of its parts, and each turn pops one, so
-- that the fuel is enough. All other loops go over a list.
--
-- Not modelled: threads inside a call, logging and tracing; numbers in payloads are natural
-- numbers; a handler that mutates the payload of the action that it is given; the Redis event
-- listener, the HTTP routes, the LLM clients, the prompt sanitiser, the Postgres and Redis
-- adapters, the retrieval strategies that stand on embeddings and the scripts.
pub mod Prelude
pub mod Dict
pub mod Exec
pub mod Contracts
pub mod Context
pub mod Orchestrator
pub mod Rings
