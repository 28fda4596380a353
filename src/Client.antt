-- ===== src/Client.antt =====
-- The client of the group calls, project2/project.c: its calls, its loops, and what it prints.
pub mod Main
pub mod Tokens
pub mod Unread
pub mod Drain
mod Tests
