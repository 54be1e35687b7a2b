-- ===== src/Pipe.antt =====
-- The two processes of pipe/reliable, words through a pipe with two semaphores, and those of pipe/simple.
pub mod Splitter
pub mod Processes
pub mod Together
pub mod Preserved
pub mod Ending
pub mod Termination
pub mod Bounds
pub mod Simple
pub mod Following
pub mod Order
pub mod Synchronized
pub mod Mirrors
pub mod Lead
pub mod Ahead
pub mod Waits
