-- ===== src/Group/Invariant.antt =====
-- The well-formedness of the group table, and its preservation by each call.
pub mod Table
pub mod Admins
pub mod Joins
pub mod Traffic
