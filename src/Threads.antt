-- ===== src/Threads.antt =====
-- The thread programs of 11.threads other than the sort.
pub mod Runs
pub mod FooHash
pub mod JobQueue
pub mod Messages
pub mod Quit
