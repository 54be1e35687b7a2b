-- ===== src/Select.antt =====
-- The server io-multiplexing/select/main.c.
pub mod Server
pub mod Held
pub mod Invariant
pub mod Arrivals
pub mod Watching
pub mod Loop
pub mod Main
pub mod Cleanup
pub mod NoLeak
pub mod Program
