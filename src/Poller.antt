-- ===== src/Poller.antt =====
-- The pollers (aio_linux.go, aio_bsd.go, aio_windows.go), less the system calls.
pub mod Table
pub mod Undo
pub mod Events
pub mod Rounds
pub mod Queue
pub mod Wait
