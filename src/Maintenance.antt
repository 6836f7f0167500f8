-- ===== src/Maintenance.antt =====
-- internal/maintenance/service.go: the worker that carries out what the store has authorized.
pub mod Physical
