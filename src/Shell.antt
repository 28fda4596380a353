-- ===== src/Shell.antt =====
-- The shell of CS551P1/CS551P1/main.c: its lexer and parser, and the check of parentheses.
pub mod Lexer
pub mod Parser
pub mod Calls
pub mod Run
pub mod Sequence
pub mod Profile
pub mod Alias
pub mod Main
pub mod Console
pub mod Session
pub mod Parens
pub mod Balance
mod Tests
