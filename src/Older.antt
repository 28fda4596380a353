-- ===== src/Older.antt =====
-- The older shell, CS551P1/main.c, whose pipe sign is a comma and which has no lists.
pub mod Lexer
pub mod Parser
pub mod Run
pub mod Translate
pub mod Tokens
pub mod Words
pub mod Same
pub mod Calls
pub mod Sequence
pub mod Profile
pub mod Main
pub mod Session
mod Tests
