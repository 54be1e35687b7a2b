-- ===== src/Shm.antt =====
-- The two programs of shared-memory/mmap-munmap, a word at a time through one shared buffer.
pub mod Programs
pub mod Handshake
pub mod Ending
