-- ===== src/Group.antt =====
-- The multicast groups of the process manager, project2/grpmsgdef.h and project2/grpmsgdef.c: a
-- table of ten groups, each with its senders, its receivers and fifty message slots.
pub mod Defs
pub mod Admin
pub mod Members
pub mod Messages
pub mod Invariant
pub mod Delivery
pub mod Order
pub mod Counting
pub mod Lost
pub mod Names
pub mod Packed
pub mod Twice
pub mod Snapshot
pub mod History
pub mod Tests
