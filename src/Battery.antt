-- ===== src/Battery.antt =====
-- src/battery.c: of the battery's part only the search for the directories that hold one.
pub mod Dirs
pub mod Tests
