-- ===== src/Callout.antt =====
-- The callout list of pppd/main.c: `ppp_timeout`, `ppp_untimeout`, `calltimeout`, `timeleft`.
pub mod Defs
pub mod Order
pub mod History
pub mod Due
mod Tests
