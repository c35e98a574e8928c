-- ===== src/Examples.antt =====
-- The theorems at concrete values.
mod Evidence
mod Fixtures
mod Actions
mod Common
mod Incidents
mod Saga
mod Versions
mod Messages
mod Memory
mod Flow
mod Together
mod Start
