-- ===== src/Auth.antt =====
-- pppd/auth.c: the phases of the link.
pub mod Defs
pub mod Scripts
pub mod Established
pub mod Reports
pub mod Masks
pub mod Phases
pub mod Owed
pub mod Opens
pub mod Guard
pub mod Networks
pub mod Running
pub mod Finished
pub mod Alternate
pub mod Addresses
pub mod Access
mod Tests
mod AddressTests
pub mod Channel
pub mod Ordered
mod LineTests
