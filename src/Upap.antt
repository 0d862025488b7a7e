-- ===== src/Upap.antt =====
-- The Password Authentication Protocol, both ends: pppd/upap.c and pppd/upap.h.
pub mod Defs
pub mod Ops
pub mod Run
pub mod Client
pub mod Server
pub mod Admission
pub mod Retry
mod Tests
