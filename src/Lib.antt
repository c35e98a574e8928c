-- ===== src/Lib.antt =====
-- Verification library of the Aegis platform, an incident-response system of services that
-- exchange events on a bus and share a database. A signal opens or joins an incident (detection),
-- agents diagnose it and propose a plan (orchestrator), a person decides on the plan (policy
-- decision point), and an approved plan is executed with rollback (action executor). Every change
-- is written to a hash-chained audit log.
--
-- The parts and their files:
-- - Reliability: `CircuitBreaker` (Reliability/Breaker) and `Budget` (Reliability/Budget) of
--   src/aegis_common/reliability.py, with their laws beside them.
-- - Security: signing and capabilities (Security/Signing) and `validate_action_params`
--   (Security/Params) of src/aegis_common/security.py.
-- - Audit: `append_audit` and `verify_chain` of src/aegis_common/audit.py.
-- - Schemas, Events: src/aegis_common/schemas.py and src/aegis_common/events.py.
-- - Store: the rows of src/aegis_common/models.py and src/aegis_common/models_remediation.py, the
--   database as a record of tables, and lookups by primary key.
-- - Repository: src/aegis_common/repository.py, the functions on incidents with the optimistic
--   lock of `update_status`.
-- - Detection: src/aegis_services/detection (topology.py, correlation.py, worker.py): the handler
--   of a signal, what it chooses and what it writes.
-- - Policy, Pdp: src/aegis_services/policy_approval (policy.py, app.py): the plan endpoints.
-- - Executor: src/aegis_services/action_executor (runtime.py, worker.py): `handle_approved` is
--   `Executor.Worker.handle_approved`, `_execute_step` is `Executor.Step.execute_step`, the loop is
--   `Executor.Saga.run_steps` and `_rollback` is `Executor.Saga.rollback`.
-- - Orchestrator: src/aegis_services/orchestrator (agents.py, graph.py, state.py, worker.py):
--   `handle_opened` is `Orchestrator.Worker.handle_opened`, and the session of `_persist_and_emit`
--   is in Orchestrator/Rows and Orchestrator/Persist.
-- - System: detection, the orchestrator, the decision point and the executor together, on one
--   database and the topics between them, as steps of a whole system: `System.on_opened` and
--   `System.on_approved` are the handlers that the two `run` functions give to the consume loop.
--   System/Approvals, System/Executions, System/Services and System/Decisions say what each
--   handler keeps, System/Governed and System/Fenced what every sequence of steps keeps, and
--   System/Changes which steps change the target.
-- - Bus: the consume loop of src/aegis_common/kafka.py on one partition, handler and commit apart.
-- - Ingestion: src/aegis_services/ingestion_gateway/app.py, with Dedup for `dedup_seen` of
--   src/aegis_common/redis_util.py.
-- - Chunking: src/aegis_common/chunking.py, with `_window` in Chunking/Window.
-- - Embeddings: src/aegis_common/embeddings.py, the hashing model and the choice of the model.
-- - VectorStore, Retrieval, Rag: src/aegis_common/vectorstore.py and src/aegis_services/rag_service
--   (retrieval.py, app.py): the store and its collections, the evidence with the precedent gate,
--   and the endpoint.
-- - Knowledge: src/aegis_services/knowledge_ingestor/service.py, which turns runbooks and resolved
--   incidents into points of the store.
-- - LanguageModel: src/aegis_common/llm.py, with `OllamaLLM` and `get_llm` in LanguageModel/Client.
-- - Seed: scripts/init_db.py, the catalog that a new database gets.
-- - Console, Notification: src/aegis_services/console_api/app.py and
--   src/aegis_services/notification/worker.py; the live path of the console is Console/Live.
-- - Settings, Logging, Metrics, Resources: src/aegis_common/config.py, logging.py, metrics.py, and
--   the connections that redis_util.py, db.py and kafka.py keep in a variable.
-- - Http: what an endpoint answers.
-- - Json, Texts, Prelude: Python's values, dictionaries and texts, and the names that all modules
--   share.
-- - Examples: the results below at concrete values.
--
-- How the code is modelled. A handler is a function from the event and the state to its result and
-- the new state; a database session that raises leaves the database as it was. The readings of the
-- clocks are functions of how often they were read. Identifiers are numbers, times are
-- microseconds, numbers with a fraction are counted in millionths, and Python's differences of
-- times are written as sums. Python's integers are unbounded, so nothing wraps around. Every loop
-- but one is over a list and is structural recursion. The loop of `_window` takes fuel, one round
-- more than the text has characters, which is enough when the overlap is smaller than a piece may
-- be, since each round but the last then advances by at least one character. In System a handler
-- runs as one step; a handler that raises, a commit of an offset that fails or is not reached, a
-- decision whose event is not published and a consumer that starts again are steps of their own, so
-- that a record can be handled more than once, and each topic has one partition. The publish of
-- `_persist_and_emit`, which follows the commit of its session, can fail
-- (`Orchestrator.Rows.Fresh`), and so can the publish and the commit at the end of detection's
-- session (`Detection.Worker.Ending`); the publishes of the executor, and the commits of the other
-- services, are taken to succeed unless a key is violated. HMAC, SHA-256, MD5, floating-point
-- numbers, the serialisation of JSON, the tests on characters, the model servers, Redis, the
-- broker, the vector database, regular expressions and the Kubernetes client are parameters;
-- `Security.Signing.IsSound`, `Audit.Laws.IsCollisionFree`, `Ingestion.Laws.SetNx` and
-- `Knowledge.Laws.ClientLaws` say what is relied on of them.
--
-- Not modelled: the clients of Kafka, Redis, Qdrant and Ollama, start-up, health checks, the
-- reading of the environment, tracing and the export of telemetry, which are I/O or calls of
-- libraries; migrations, and the scripts that only send demo data; two handlers that run at the
-- same time, except that others may change the database before detection reads it.
pub mod Prelude
pub mod Audit
pub mod Bus
pub mod Chunking
pub mod Console
pub mod Dedup
pub mod Detection
pub mod Events
pub mod Examples
pub mod Executor
pub mod Http
pub mod Ingestion
pub mod Json
pub mod Knowledge
pub mod LanguageModel
pub mod Logging
pub mod Metrics
pub mod Notification
pub mod Orchestrator
pub mod Pdp
pub mod Policy
pub mod Rag
pub mod Reliability
pub mod Repository
pub mod Schemas
pub mod Resources
pub mod Retrieval
pub mod Security
pub mod Seed
pub mod Settings
pub mod Store
pub mod System
pub mod Texts
pub mod Embeddings
pub mod VectorStore
