-- ===== src/Sql/Kinds/Definitions.antt =====
-- internal/query/sql/lexer.go: the kinds of the keywords of table and index definitions.
use agent_native_db.Sql.Kinds.Number.{TokenType}

abbrev pub token_alter : TokenType
token_alter = 48

abbrev pub token_show : TokenType
token_show = 49

abbrev pub token_describe : TokenType
token_describe = 50

abbrev pub token_add : TokenType
token_add = 51

abbrev pub token_column : TokenType
token_column = 52

abbrev pub token_modify : TokenType
token_modify = 53

abbrev pub token_primary : TokenType
token_primary = 54

abbrev pub token_key : TokenType
token_key = 55

abbrev pub token_if : TokenType
token_if = 56

abbrev pub token_tables : TokenType
token_tables = 57

abbrev pub token_int : TokenType
token_int = 58

abbrev pub token_integer_type : TokenType
token_integer_type = 59

abbrev pub token_varchar : TokenType
token_varchar = 60

abbrev pub token_text : TokenType
token_text = 61

abbrev pub token_string_type : TokenType
token_string_type = 62

abbrev pub token_float_type : TokenType
token_float_type = 63

abbrev pub token_bool : TokenType
token_bool = 64

abbrev pub token_boolean : TokenType
token_boolean = 65

abbrev pub token_default : TokenType
token_default = 66

abbrev pub token_using : TokenType
token_using = 67

abbrev pub token_hash : TokenType
token_hash = 68

abbrev pub token_btree : TokenType
token_btree = 69

abbrev pub token_inverted : TokenType
token_inverted = 70

abbrev pub token_fulltext : TokenType
token_fulltext = 71

abbrev pub token_indexes : TokenType
token_indexes = 72

abbrev pub token_unique : TokenType
token_unique = 73

abbrev pub token_match : TokenType
token_match = 74

abbrev pub token_against : TokenType
token_against = 75
