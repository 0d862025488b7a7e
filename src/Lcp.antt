-- ===== src/Lcp.antt =====
-- The options of the Link Control Protocol that pppd asks for: pppd/lcp.c and pppd/lcp.h.
pub mod Options
pub mod Request
pub mod Agreement
pub mod Reject
pub mod Nak
pub mod Nakci
pub mod Conceded
pub mod NakAuth
pub mod NakLimits
pub mod Shrink
pub mod Rejected
pub mod Table
pub mod Kept
pub mod Req
pub mod Reqci
pub mod Tough
mod ReqTests
pub mod Offers
pub mod Understood
pub mod Walk
pub mod Cases
pub mod Granted
pub mod Answer
pub mod Echo
pub mod Alive
mod Tests
