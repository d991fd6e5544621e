-- ===== src/Demo.antt =====
-- src/demo: the converter of tables.
pub mod Tsv
