-- ===== src/Reliability.antt =====
-- src/aegis_common/reliability.py: the circuit breaker and the per-incident budget.
pub mod Breaker
pub mod Budget
