-- ===== src/Threads.antt =====
-- The kernel's lists and synchronisation under threads/.
pub mod Queue
pub mod Semaphore
pub mod Lock
pub mod Scheduler
mod Tests
