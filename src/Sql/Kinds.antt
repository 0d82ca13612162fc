-- ===== src/Sql/Kinds.antt =====
-- internal/query/sql/lexer.go: the kinds of tokens, with the numbers of iota.
mod Number
mod Words
mod Definitions
pub use Number.{TokenType}
pub use Words.*
pub use Definitions.*

abbrev pub token_eof : TokenType
token_eof = 0

abbrev pub token_illegal : TokenType
token_illegal = 1

abbrev pub token_ident : TokenType
token_ident = 2

abbrev pub token_string : TokenType
token_string = 3

abbrev pub token_integer : TokenType
token_integer = 4

abbrev pub token_float : TokenType
token_float = 5

abbrev pub token_eq : TokenType
token_eq = 76

abbrev pub token_neq : TokenType
token_neq = 77

abbrev pub token_lt : TokenType
token_lt = 78

abbrev pub token_lte : TokenType
token_lte = 79

abbrev pub token_gt : TokenType
token_gt = 80

abbrev pub token_gte : TokenType
token_gte = 81

abbrev pub token_plus : TokenType
token_plus = 82

abbrev pub token_minus : TokenType
token_minus = 83

abbrev pub token_multiply : TokenType
token_multiply = 84

abbrev pub token_divide : TokenType
token_divide = 85

abbrev pub token_modulo : TokenType
token_modulo = 86

abbrev pub token_comma : TokenType
token_comma = 87

abbrev pub token_semicolon : TokenType
token_semicolon = 88

abbrev pub token_lparen : TokenType
token_lparen = 89

abbrev pub token_rparen : TokenType
token_rparen = 90

abbrev pub token_dot : TokenType
token_dot = 91

abbrev pub token_vector_dist : TokenType
token_vector_dist = 92
