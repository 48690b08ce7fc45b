-- ===== src/Sysctrl.antt =====
-- The system control daemon, package/alt-f-utils/alt-f-utils-0.1.11/sysctrl.c.
pub mod Globals
pub mod Led
pub mod Button
pub mod Disks
pub mod Raid
pub mod Temp
pub mod Log
pub mod Fan
pub mod Loop
pub mod Lines
pub mod Config
pub mod Board
pub mod Bay
pub mod Start
mod Tests
