-- ===== src/Threads.antt =====
-- threads/: the synchronisation of threads and the tables of processes and semaphores.
pub mod Exclusion
pub mod Lock
pub mod Progress
pub mod Schedule
pub mod Semaphore
pub mod Tests
pub mod Wakeups
