-- ===== src/Providers/Tests.antt =====
-- A name is registered twice.
