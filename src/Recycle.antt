-- ===== src/Recycle.antt =====
-- The recycle directories of Project3/p3_code: the records of mfs/new.c, the requests of
-- vfs/request.c and the system calls of vfs/new.c.
pub mod Mfs
pub mod Table
pub mod Vfs
pub mod Records
pub mod Undelete
pub mod Tool
pub mod Undo
pub mod Viewer
pub mod Menu
mod Tests
