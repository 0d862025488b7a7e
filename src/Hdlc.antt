-- ===== src/Hdlc.antt =====
-- Frames on an asynchronous line: modules/ppp_ahdlc.c and pppd/demand.c.
pub mod Fcs
pub mod Good
pub mod Defs
pub mod Stuffing
pub mod RoundTrip
pub mod Maps
pub mod Faults
mod Tests
