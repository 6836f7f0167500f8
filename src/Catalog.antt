-- ===== src/Catalog.antt =====
-- The SQLite catalogue of internal/store: its tables, as the schema in internal/store/store.go declares
-- them, and what the store takes from outside. The operations stand in the modules below.
pub mod Tables
pub mod Rows
