-- ===== src/Store.antt =====
-- The rows of src/aegis_common/models.py and src/aegis_common/models_remediation.py, and the
-- database as one record of tables. A column that the code writes only with fixed texts is an
-- enumeration of them. Identifiers are UUIDs, numbered.
mod Rows
pub mod Lookup
pub use Rows.*
