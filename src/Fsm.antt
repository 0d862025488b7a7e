-- ===== src/Fsm.antt =====
-- The finite state machine that LCP, IPCP, IPV6CP and CCP share: pppd/fsm.c and pppd/fsm.h.
pub mod Defs
pub mod Send
pub mod Events
pub mod Input
pub mod Timers
pub mod Received
pub mod Run
pub mod Reachable
pub mod Framing
pub mod Rfc
mod Tests
