-- ===== src/Daemon/Checks/Status.antt =====
-- x
