-- ===== src/Column/Loops.antt =====
-- Inserts that go through `ch_send_block` with its cache, on the library of trees.
use php_clickhouse.Base.{
  true, ◌≡◌, refl, Bytes, codes, List, [], ◌∷◌, none, map, false, subst, ◌++◌,
}
use php_clickhouse.Base.Int.{ℤ, pos, negsuc, to_signed}
use php_clickhouse.Errors.{returns, returns-eq}
use php_clickhouse.Php.{
  Zval, is_null, is_long, is_string, is_array, nil, entry, name, Entries, index,
}
use php_clickhouse.Result.{Row}
use php_clickhouse.Insert.{
  InsertRow, cells, Library, Wire, begin_insert, send_block, send_filled, after_send, after_end,
  make, called, check_count,
}
use php_clickhouse.Column.{map_of, scalar, array_of, int, w8, string}
use php_clickhouse.Column.Append.{
  append_value, append_scalar, append_to_map, append_pairs, templates_of, created, find_template,
  one_row, expect_array, input_of,
}
use php_clickhouse.Column.Stored.{of_int, of_string, Plain}
use php_clickhouse.Column.Trees.{
  Tree, blank, whole_numbers, texts, lists, pairs, type_of, numbers_and_maps, numbers_and_maps_type,
  trees, php,
}
use php_clickhouse.Column.TreeTypes.{Stays, trees-KeepsTypes}
use php_clickhouse.Column.Block.{
  without_cache, append_typed, append_cell, fill_cells_cached, fill_row_cached, fill_rows_cached,
  fill_block_cached, AllLasting,
}
use php_clickhouse.Column.Send.{filled_cached, send_block_cached, send_block_cached-send_block}
use php_clickhouse.Column.Table.{Sort}
use php_clickhouse.Column.Types.{MapFree, Steady}
use php_clickhouse.ResultObject.{ResultObject}

abbrev wire : Library Tree
wire = record {
  begins = λ cs. returns (blank pairs ∷ blank texts ∷ []);
  answers = λ cs. returns tt;
  leaves = λ cs. none;
  clone_empty = trees.clone_empty;
}

abbrev idle : Wire Tree
idle = record { calls = []; broken = false; pending = none }

-- Two rows whose maps are of one type, so that the second takes its templates from the cache.
abbrev map_names : List Bytes
map_names = codes "m" ∷ codes "s" ∷ []

abbrev map_rows : List (InsertRow Zval)
map_rows =
    cells (is_array (entry (name (codes "a")) (is_long (pos 1)) nil) ∷ is_string (codes "x") ∷ [])
    ∷ cells
        (is_array (entry (name (codes "b")) (is_long (pos 300)) nil) ∷ is_string (codes "y") ∷ [])
    ∷ []

abbrev map_statement : Bytes
map_statement = codes "INSERT INTO t (m, s) VALUES"

map_sample-AllLasting :
    (sample : List Tree)
    → wire.begins (idle.calls ++ begin_insert map_statement ∷ []) ≡ returns sample
    → AllLasting trees type_of Stays (map wire.clone_empty sample)
unfolding MapFree Steady
map_sample-AllLasting sample h =
    subst (λ l. AllLasting trees type_of Stays (map trees.clone_empty l)) (returns-eq h)
      (((tt, tt), tt), ((tt, tt), tt))

send_block_cached-send_block_example :
    send_block_cached php trees type_of wire map_statement map_names map_rows idle
    ≡ send_block (append_cell php trees type_of) wire map_statement map_names map_rows idle
send_block_cached-send_block_example =
    send_block_cached-send_block php trees type_of wire trees-KeepsTypes refl map_statement
      map_names map_rows idle map_sample-AllLasting

-- Both rows are filled in.
maps_inserted :
    (send_block_cached php trees type_of wire map_statement map_names map_rows idle).1 ≡ true
unfolding append_value append_to_map append_pairs append_scalar expect_array input_of to_signed
    templates_of created find_template one_row append_typed without_cache fill_cells_cached
    fill_row_cached fill_rows_cached fill_block_cached filled_cached check_count send_block_cached
    send_filled after_send after_end make called
maps_inserted = refl

-- An Int8, a String, an Array(Int8), a Map(String, Int8) and a Tuple(Nullable(Int8), Map(String, Int8)); 300 does not fit an Int8.
abbrev plain_names : List Bytes
plain_names = codes "n" ∷ codes "s" ∷ codes "l" ∷ codes "m" ∷ codes "t" ∷ []

abbrev plain_sample : List Tree
plain_sample = blank whole_numbers ∷ blank texts ∷ blank lists ∷ blank pairs ∷ numbers_and_maps ∷ []

-- A row of the tuple.
abbrev row_of : Zval → Entries → Zval
row_of n m = is_array (entry (index (pos 0)) n (entry (index (pos 1)) (is_array m) nil))

abbrev pair_of : ℤ → Entries
pair_of n = entry (name (codes "k")) (is_long n) nil

abbrev plain_rows : List (InsertRow Zval)
plain_rows =
    cells (
      is_long (pos 300)
      ∷ is_string (codes "x")
      ∷ is_array nil
      ∷ is_array nil
      ∷ row_of is_null (pair_of (pos 1))
      ∷ [])
    ∷ cells (
        is_long (negsuc 0)
        ∷ is_string (codes "y")
        ∷ is_array (entry (name (codes "a")) (is_long (pos 7)) nil)
        ∷ is_array (entry (name (codes "k")) (is_long (pos 200)) nil)
        ∷ row_of (is_long (pos 300)) nil
        ∷ [])
    ∷ []

abbrev sorts : List Sort
unfolding Plain
sorts =
    (scalar (int w8), of_int w8)
    ∷ (scalar string, of_string)
    ∷ (array_of (scalar (int w8)), of_int w8)
    ∷ (map_of (scalar string) (scalar (int w8)), (of_string, of_int w8))
    ∷ (numbers_and_maps_type, (of_int w8, ((of_string, of_int w8), tt)))
    ∷ []

abbrev plain_wire : Library Tree
plain_wire = record {
  begins = λ cs. returns plain_sample;
  answers = λ cs. returns tt;
  leaves = λ cs. none;
  clone_empty = trees.clone_empty;
}

abbrev insert_statement : Bytes
insert_statement = codes "INSERT INTO t (n, s, l, m, t) VALUES"

-- 300 is read as 44, and the keys of the array are gone.
abbrev plain_row : ℤ → Bytes → Entries → Entries → Zval → Row Zval
plain_row n s l m t =
    (codes "n", is_long n)
    ∷ (codes "s", is_string s)
    ∷ (codes "l", is_array l)
    ∷ (codes "m", is_array m)
    ∷ (codes "t", t)
    ∷ []
