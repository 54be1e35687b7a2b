-- ===== src/Counter.antt =====
-- The threads of pthread_mutex_lock-pthread_mutex_unlock, that count in one variable.
pub mod Threads
pub mod Counted
pub mod Ending
