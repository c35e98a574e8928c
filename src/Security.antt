-- ===== src/Security.antt =====
-- src/aegis_common/security.py: signatures over records, capabilities, and the check of an
-- action's parameters. Times are microseconds.
pub mod Signing
pub mod Params
pub mod Laws
