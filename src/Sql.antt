-- ===== src/Sql.antt =====
-- internal/query/sql: the lexer and the indexes of the SQL engine.
pub mod Kinds
pub mod Token
pub mod Lexer
pub mod Index
mod Examples
