-- ===== src/Daemon.antt =====
-- The DNS-320L daemon, package/alt-f-utils/alt-f-utils-0.1.11/dns320l-daemon.c and its headers.
pub mod Commands
pub mod Bcd
pub mod Serial
pub mod State
pub mod Actions
pub mod Alarm
pub mod Rtc
pub mod Handle
pub mod Control
pub mod Poll
pub mod Loop
pub mod Client
pub mod Tests
