-- ===== src/Chap.antt =====
-- The Challenge Handshake Authentication Protocol, both ends: pppd/chap.c and pppd/chap.h.
pub mod Defs
pub mod Server
pub mod Client
pub mod Messages
pub mod Handshake
pub mod Run
pub mod Timers
pub mod Calls
pub mod Reachable
pub mod Ends
mod Tests
