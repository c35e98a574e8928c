-- ===== src/Detection.antt =====
-- src/aegis_services/detection: the correlation of signals into incidents.
pub mod Topology
pub mod Correlation
pub mod Adjacency
pub mod Choice
pub mod Worker
pub mod Laws
pub mod Fencing
