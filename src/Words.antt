-- ===== src/Words.antt =====
-- The words of an options file: `getword` of pppd/options.c.
pub mod Defs
pub mod Ends
pub mod RoundTrip
pub mod File
mod Tests
