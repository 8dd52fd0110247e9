-- ===== src/Column/Examples.antt =====
-- Values that go through columns.
use php_clickhouse.Base.{refl, codes, []}
use php_clickhouse.Base.Int.{pos, negsuc, to_signed, to_unsigned}
use php_clickhouse.Errors.{Outcome, returns, throws}
use php_clickhouse.Php.{
  Zval, is_null, is_long, is_string, is_array, Entries, nil, entry, index, name,
}
use php_clickhouse.Column.{w16, uint, string, ColumnType, scalar, tuple_of, no_members, member_and}
use php_clickhouse.Column.Append.{
  Templates, append_value, append_array, append_each, append_nullable, append_tuple, append_scalar,
  expect_array, null_value, input_of, flagged,
}
use php_clickhouse.Column.Rows.{append_value-HasRows}
use php_clickhouse.Column.Sizes.{HasRows}
use php_clickhouse.Column.Trees.{
  whole_numbers, Tree, blank, numbers_and_maps, numbers_and_maps_type, trees, php,
}
use php_clickhouse.Column.TreeLaws.{trees-CountsRows}

-- Tuple(String, UInt16).
abbrev pair : ColumnType
pair = tuple_of (member_and (scalar string) (member_and (scalar (uint w16)) no_members))

abbrev a_pair : Zval
a_pair =
    is_array (
      entry (index (pos 0)) (is_string (codes "x"))
        (entry (index (pos 1)) (is_long (negsuc 0)) nil))

abbrev of_row : Outcome (Tree × Templates Tree) → Tree
of_row (returns (c, tmpl)) = c
of_row (throws e) = blank whole_numbers

abbrev templates_after : Outcome (Tree × Templates Tree) → Templates Tree
templates_after (returns (c, tmpl)) = tmpl
templates_after (throws e) = []

-- A first row stands already, so that the second takes the templates of its Map from the cache.
abbrev row_of : Zval → Entries → Zval
row_of n m = is_array (entry (index (pos 0)) n (entry (index (pos 1)) (is_array m) nil))

abbrev one_row_in : Outcome (Tree × Templates Tree)
one_row_in = append_value php trees numbers_and_maps_type numbers_and_maps (row_of is_null nil) []

abbrev second_row : Zval
second_row =
    row_of (is_long (pos 300)) (
      entry (name (codes "a")) (is_long (pos 1)) (entry (name (codes "b")) (is_long (pos 300)) nil))

abbrev two_rows_in : Outcome (Tree × Templates Tree)
two_rows_in =
    append_value php trees numbers_and_maps_type (of_row one_row_in) second_row
      (templates_after one_row_in)

append_value-HasRows_example :
    HasRows trees pair 1 (of_row (append_value php trees pair (blank whole_numbers) a_pair []))
unfolding append_value append_array append_each append_nullable append_tuple append_scalar
    expect_array null_value input_of flagged to_signed to_unsigned HasRows
append_value-HasRows_example =
    append_value-HasRows php trees trees-CountsRows pair (blank whole_numbers) a_pair [] []
      (of_row (append_value php trees pair (blank whole_numbers) a_pair [])) 0 refl
      (refl, tt, (refl, (refl, tt)))
