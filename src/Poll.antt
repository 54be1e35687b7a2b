-- ===== src/Poll.antt =====
-- The server of io-multiplexing/poll/main.c: words from many clients over one `poll` loop.
pub mod State
pub mod Clients
pub mod Growth
pub mod Invariant
pub mod Receive
pub mod Frames
pub mod Held
pub mod Service
pub mod Served
pub mod Main
pub mod Balance
pub mod NoLeak
pub mod Finishes
pub mod Program
