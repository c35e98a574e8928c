-- ===== src/Pdp.antt =====
-- src/aegis_services/policy_approval/app.py: the endpoints of the decision point. A handler takes
-- the database and gives its response, the database after its session, and what it published.
pub mod Queries
pub mod Decide
pub mod Outcome
pub mod Laws
