-- ===== src/Sxq.antt =====
-- internal/sxq: the query language, from bytes to tokens to expressions.
pub mod Utf8
pub mod Lexer
pub mod Syntax
pub mod Values
pub mod Outcomes
pub mod Parser
pub mod Projects
pub mod Compile
mod Examples
