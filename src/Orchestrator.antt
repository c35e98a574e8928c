-- ===== src/Orchestrator.antt =====
-- src/aegis_services/orchestrator: the agent workflow of an incident and the plan that it yields.
pub mod State
pub mod Reading
pub mod Agents
pub mod Ensures
pub mod Load
pub mod Graph
pub mod Gates
pub mod Rows
pub mod Persist
pub mod Workflow
pub mod Outcome
pub mod Opened
pub mod Worker
