-- ===== src/Aboot.antt =====
-- src/aboot.c: the commands that flash, erase, push and reboot.
pub mod Pipeline
pub mod Target
pub mod Commands
pub mod Oem
pub mod Flow
pub mod Flash
pub mod Tests
