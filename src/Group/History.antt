-- ===== src/Group/History.antt =====
-- Every history of calls on the group table of project2/grpmsgdef.c.
mod Flags
pub mod Reach
