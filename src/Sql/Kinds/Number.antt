-- ===== src/Sql/Kinds/Number.antt =====
-- internal/query/sql/lexer.go: TokenType.
use agent_native_db.Prelude.{ℕ}

abbrev pub TokenType : Type 0
TokenType = ℕ
