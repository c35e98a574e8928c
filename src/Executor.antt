-- ===== src/Executor.antt =====
-- src/aegis_services/action_executor: the enforcement point, which executes approved plans.
pub mod Runtime
pub mod State
pub mod Step
pub mod Saga
pub mod Worker
pub mod Gate
pub mod Idempotence
pub mod Retries
pub mod Compensation
pub mod Outcome
