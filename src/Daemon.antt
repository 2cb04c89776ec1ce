-- ===== src/Daemon.antt =====
-- main.cpp: the configuration and the logs of the daemon.
pub mod Logging
pub mod Rotation
pub mod Settings
pub mod Config
mod Tests
