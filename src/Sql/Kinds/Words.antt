-- ===== src/Sql/Kinds/Words.antt =====
-- internal/query/sql/lexer.go: the kinds of the keywords of queries.
use agent_native_db.Sql.Kinds.Number.{TokenType}

abbrev pub token_select : TokenType
token_select = 6

abbrev pub token_insert : TokenType
token_insert = 7

abbrev pub token_update : TokenType
token_update = 8

abbrev pub token_delete : TokenType
token_delete = 9

abbrev pub token_from : TokenType
token_from = 10

abbrev pub token_where : TokenType
token_where = 11

abbrev pub token_and : TokenType
token_and = 12

abbrev pub token_or : TokenType
token_or = 13

abbrev pub token_not : TokenType
token_not = 14

abbrev pub token_in : TokenType
token_in = 15

abbrev pub token_is : TokenType
token_is = 16

abbrev pub token_null : TokenType
token_null = 17

abbrev pub token_as : TokenType
token_as = 18

abbrev pub token_order : TokenType
token_order = 19

abbrev pub token_by : TokenType
token_by = 20

abbrev pub token_asc : TokenType
token_asc = 21

abbrev pub token_desc : TokenType
token_desc = 22

abbrev pub token_group : TokenType
token_group = 23

abbrev pub token_limit : TokenType
token_limit = 24

abbrev pub token_offset : TokenType
token_offset = 25

abbrev pub token_set : TokenType
token_set = 26

abbrev pub token_into : TokenType
token_into = 27

abbrev pub token_values : TokenType
token_values = 28

abbrev pub token_create : TokenType
token_create = 29

abbrev pub token_table : TokenType
token_table = 30

abbrev pub token_index : TokenType
token_index = 31

abbrev pub token_drop : TokenType
token_drop = 32

abbrev pub token_join : TokenType
token_join = 33

abbrev pub token_left : TokenType
token_left = 34

abbrev pub token_on : TokenType
token_on = 35

abbrev pub token_true : TokenType
token_true = 36

abbrev pub token_false : TokenType
token_false = 37

abbrev pub token_like : TokenType
token_like = 38

abbrev pub token_between : TokenType
token_between = 39

abbrev pub token_exists : TokenType
token_exists = 40

abbrev pub token_count : TokenType
token_count = 41

abbrev pub token_sum : TokenType
token_sum = 42

abbrev pub token_min : TokenType
token_min = 43

abbrev pub token_max : TokenType
token_max = 44

abbrev pub token_avg : TokenType
token_avg = 45

abbrev pub token_first : TokenType
token_first = 46

abbrev pub token_last : TokenType
token_last = 47
