-- ===== src/Daemon.antt =====
-- src/palm-sync-daemon.c: the lock that keeps a second daemon away, and the data directory.
pub mod Lock
pub mod DataDir
mod Tests
