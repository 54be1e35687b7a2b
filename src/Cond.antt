-- ===== src/Cond.antt =====
-- The two threads of pthread_cond_wait-pthread_cond_signal, a word at a time under one mutex.
pub mod Threads
pub mod Safe
pub mod Progress
pub mod Unlocked
