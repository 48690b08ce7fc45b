-- ===== src/Firmware.antt =====
-- The firmware tool, package/alt-f-utils/alt-f-utils-0.1.11/dns323-fw.c.
pub mod File
pub mod Header
pub mod Copy
pub mod Layout
pub mod Save
pub mod Options
pub mod Merge
pub mod Split
pub mod Program
pub mod Image
mod Tests
