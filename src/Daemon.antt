-- ===== src/Daemon.antt =====
-- packages/cli/src/daemon: the checks that the daemon keeps.
pub mod Checks
mod Tests
