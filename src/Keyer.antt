-- ===== src/Keyer.antt =====
-- The keyer: src/keyer/.
pub mod Floats
pub mod Morse
pub mod CharPatterns
pub mod Machine
pub mod Memory
pub mod Winkeyer
pub mod States
pub mod Commands
pub mod Sending
pub mod Tests
