-- ===== src/Tests.antt =====
-- The theorems at concrete inputs, and runs of the definitions.
mod Io
mod Poll
mod Shm
mod Cli
mod Select
mod Pipe
mod Cond
mod Serial
mod Net
mod Client
mod Counter
mod Simple
mod Synchronized
