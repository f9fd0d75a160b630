-- ===== src/Ap/Script/Tests.antt =====
-- A script over two meters.
