-- ===== src/Cdup/Expr.antt =====
-- cdup/src/expr.py: the parser of C expressions.
pub mod Tokens
pub mod Parser
pub mod Pratt
mod Examples
