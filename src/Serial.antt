-- ===== src/Serial.antt =====
-- The servers that serve one client at a time: domain-socket, tcp/shutdown, listen-accept and setsockopt.
pub mod Effects
pub mod Words
pub mod Client
pub mod Domain
pub mod Named
pub mod Loop
pub mod Servers
pub mod Runs
