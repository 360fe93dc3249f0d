-- ===== src/Events.antt =====
-- event.c and event.h: groups, file access events and the calls that move them.
pub mod State
pub mod Release
pub mod Groups
pub mod Access
pub mod Serve
pub mod Deliver
pub mod Listing
pub mod Tally
pub mod Phase
pub mod Pointers
pub mod System
pub mod Invariant
pub mod Verdict
pub mod Safety
pub mod Quiet
pub mod Refinement
pub mod Denial
pub mod Settling
pub mod Registry
pub mod Examples
