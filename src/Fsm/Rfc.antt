-- ===== src/Fsm/Rfc.antt =====
-- RFC 1661, section 4.1: the transition table that pppd/fsm.c was written from.
pub mod Table
pub mod Laws
pub mod Layers
pub mod Packets
pub mod Steps
