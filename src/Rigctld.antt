-- ===== src/Rigctld.antt =====
-- src/rigctld_server.cpp and src/rigctld_server.h: CAT control of the rig for network clients.
pub mod Hamlib
pub mod Names
pub mod Dump
pub mod Interpret
pub mod Client
pub mod Clients
pub mod ByKey
pub mod Poll
pub mod Sweep
pub mod Work
pub mod Tests
