-- ===== src/Sql/Token.antt =====
-- internal/query/sql/lexer.go: the keywords, and the names of the kinds of tokens.
pub mod Names
use agent_native_db.Prelude.{
  ◌-◌, Bool, true, false, Option, none, some, List, [], ◌∷◌, ◌==◌, leb, String, if◌then◌else◌, ◌||◌,
  zero, suc, ℕ, ◌≡◌, refl,
}
use agent_native_db.Bytes.{Bytes, codes}
use agent_native_db.Bytes.Map.{Map, lookup}
use agent_native_db.Sql.Kinds.{
  TokenType, token_add, token_against, token_alter, token_and, token_as, token_asc, token_avg,
  token_between, token_bool, token_boolean, token_btree, token_by, token_column, token_count,
  token_create, token_default, token_delete, token_desc, token_describe, token_divide, token_dot,
  token_drop, token_eof, token_eq, token_exists, token_false, token_first, token_float,
  token_float_type, token_from, token_fulltext, token_group, token_gt, token_gte, token_hash,
  token_ident, token_if, token_illegal, token_in, token_index, token_indexes, token_insert,
  token_int, token_integer_type, token_into, token_inverted, token_is, token_join, token_key,
  token_last, token_left, token_like, token_limit, token_lt, token_lte, token_match, token_max,
  token_min, token_minus, token_modify, token_modulo, token_multiply, token_neq, token_not,
  token_null, token_offset, token_on, token_or, token_order, token_plus, token_primary,
  token_select, token_set, token_show, token_string, token_string_type, token_sum, token_table,
  token_tables, token_text, token_true, token_unique, token_update, token_using, token_values,
  token_varchar, token_vector_dist, token_where,
}

abbrev pub keyword_names : List (String × TokenType)
keyword_names =
    ("SELECT", token_select)
    ∷ ("INSERT", token_insert)
    ∷ ("UPDATE", token_update)
    ∷ ("DELETE", token_delete)
    ∷ ("FROM", token_from)
    ∷ ("WHERE", token_where)
    ∷ ("AND", token_and)
    ∷ ("OR", token_or)
    ∷ ("NOT", token_not)
    ∷ ("IN", token_in)
    ∷ ("IS", token_is)
    ∷ ("NULL", token_null)
    ∷ ("AS", token_as)
    ∷ ("ORDER", token_order)
    ∷ ("BY", token_by)
    ∷ ("ASC", token_asc)
    ∷ ("DESC", token_desc)
    ∷ ("GROUP", token_group)
    ∷ ("LIMIT", token_limit)
    ∷ ("OFFSET", token_offset)
    ∷ ("SET", token_set)
    ∷ ("INTO", token_into)
    ∷ ("VALUES", token_values)
    ∷ ("CREATE", token_create)
    ∷ ("TABLE", token_table)
    ∷ ("INDEX", token_index)
    ∷ ("DROP", token_drop)
    ∷ ("JOIN", token_join)
    ∷ ("LEFT", token_left)
    ∷ ("ON", token_on)
    ∷ ("TRUE", token_true)
    ∷ ("FALSE", token_false)
    ∷ ("LIKE", token_like)
    ∷ ("BETWEEN", token_between)
    ∷ ("EXISTS", token_exists)
    ∷ ("COUNT", token_count)
    ∷ ("SUM", token_sum)
    ∷ ("MIN", token_min)
    ∷ ("MAX", token_max)
    ∷ ("AVG", token_avg)
    ∷ ("FIRST", token_first)
    ∷ ("LAST", token_last)
    ∷ ("ALTER", token_alter)
    ∷ ("SHOW", token_show)
    ∷ ("DESCRIBE", token_describe)
    ∷ ("ADD", token_add)
    ∷ ("COLUMN", token_column)
    ∷ ("MODIFY", token_modify)
    ∷ ("PRIMARY", token_primary)
    ∷ ("KEY", token_key)
    ∷ ("IF", token_if)
    ∷ ("TABLES", token_tables)
    ∷ ("INT", token_int)
    ∷ ("INTEGER", token_integer_type)
    ∷ ("VARCHAR", token_varchar)
    ∷ ("TEXT", token_text)
    ∷ ("STRING", token_string_type)
    ∷ ("FLOAT", token_float_type)
    ∷ ("BOOL", token_bool)
    ∷ ("BOOLEAN", token_boolean)
    ∷ ("DEFAULT", token_default)
    ∷ ("USING", token_using)
    ∷ ("HASH", token_hash)
    ∷ ("BTREE", token_btree)
    ∷ ("INVERTED", token_inverted)
    ∷ ("FULLTEXT", token_fulltext)
    ∷ ("INDEXES", token_indexes)
    ∷ ("UNIQUE", token_unique)
    ∷ ("MATCH", token_match)
    ∷ ("AGAINST", token_against)
    ∷ []

unfoldable pub as_map : List (String × TokenType) → Map TokenType
as_map [] = []
as_map ((name, t) ∷ rest) = (codes name, t) ∷ as_map rest

-- keywords[word]
unfoldable pub keyword : Bytes → Option TokenType
unfolding lookup as_map
keyword word = lookup word (as_map keyword_names)

abbrev ident_names : List String
ident_names = "IDENT" ∷ "STRING" ∷ "INTEGER" ∷ "FLOAT" ∷ []

abbrev select_names : List String
select_names =
    "SELECT" ∷ "INSERT" ∷ "UPDATE" ∷ "DELETE" ∷ "FROM" ∷ "WHERE" ∷ "AND" ∷ "OR" ∷ "NOT" ∷ "IN"
    ∷ "IS" ∷ "NULL" ∷ "AS" ∷ "ORDER" ∷ "BY" ∷ "ASC" ∷ "DESC" ∷ "GROUP" ∷ "LIMIT" ∷ "OFFSET" ∷ "SET"
    ∷ "INTO" ∷ "VALUES" ∷ "CREATE" ∷ "TABLE" ∷ "INDEX" ∷ "DROP" ∷ "JOIN" ∷ "LEFT" ∷ "ON" ∷ "TRUE"
    ∷ "FALSE" ∷ "LIKE" ∷ "BETWEEN" ∷ "EXISTS" ∷ "COUNT" ∷ "SUM" ∷ "MIN" ∷ "MAX" ∷ "AVG" ∷ "FIRST"
    ∷ "LAST" ∷ []

abbrev alter_names : List String
alter_names =
    "ALTER" ∷ "SHOW" ∷ "DESCRIBE" ∷ "ADD" ∷ "COLUMN" ∷ "MODIFY" ∷ "PRIMARY" ∷ "KEY" ∷ "IF"
    ∷ "TABLES" ∷ "INT" ∷ "INTEGER" ∷ "VARCHAR" ∷ "TEXT" ∷ "STRING" ∷ "FLOAT" ∷ "BOOL" ∷ "BOOLEAN"
    ∷ "DEFAULT" ∷ []

abbrev using_names : List String
using_names =
    "USING" ∷ "HASH" ∷ "BTREE" ∷ "INVERTED" ∷ "FULLTEXT" ∷ "INDEXES" ∷ "UNIQUE" ∷ "MATCH"
    ∷ "AGAINST" ∷ []

abbrev eq_names : List String
eq_names =
    "=" ∷ "!=" ∷ "<" ∷ "<=" ∷ ">" ∷ ">=" ∷ "+" ∷ "-" ∷ "*" ∷ "/" ∷ "%" ∷ "," ∷ ";" ∷ "(" ∷ ")" ∷ "."
    ∷ []

nth_name : ℕ → List String → Option Bytes
nth_name n [] = none
nth_name zero (x ∷ xs) = some (codes x)
nth_name (suc n) (x ∷ xs) = nth_name n xs

-- String(); `none` is the number in parentheses, or an index out of its table.
unfoldable pub token_type_name : TokenType → Option Bytes
unfolding nth_name
token_type_name t =
    if t == token_eof
    then some (codes "EOF")
    else if t == token_illegal
    then some (codes "ILLEGAL")
    else if leb t token_float
    then nth_name (t - token_ident) ident_names
    else if leb t token_last
    then nth_name (t - token_select) select_names
    else if leb t token_default
    then nth_name (t - token_alter) alter_names
    else if leb t token_against
    then nth_name (t - token_using) using_names
    else if leb t token_dot
    then nth_name (t - token_eq) eq_names
    else if t == token_vector_dist
    then some (codes "<->")
    else none

-- IsAggregate
unfoldable pub is_aggregate : TokenType → Bool
is_aggregate tt =
    tt == token_count
    || tt == token_sum
    || tt == token_min
    || tt == token_max
    || tt == token_avg
    || tt == token_first
    || tt == token_last

-- IsComparisonOp
unfoldable pub is_comparison_op : TokenType → Bool
is_comparison_op tt =
    tt == token_eq
    || tt == token_neq
    || tt == token_lt
    || tt == token_lte
    || tt == token_gt
    || tt == token_gte

-- IsArithmeticOp
unfoldable pub is_arithmetic_op : TokenType → Bool
is_arithmetic_op tt =
    tt == token_plus
    || tt == token_minus
    || tt == token_multiply
    || tt == token_divide
    || tt == token_modulo
