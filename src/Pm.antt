-- ===== src/Pm.antt =====
-- The process manager's side of the group calls: project2/callnr.h, table.c, project2.h and the
-- handlers at the end of misc.c.
pub mod Table
pub mod Handlers
pub mod Safety
mod Tests
