-- ===== src/Demand.antt =====
-- Dial on demand: what pppd/demand.c does with the frames that wait for the link.
pub mod Defs
pub mod Reads
pub mod Queue
mod Tests
