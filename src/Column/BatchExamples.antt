-- ===== src/Column/BatchExamples.antt =====
-- A batch into a table of an Int8 and a Map(String, Int8), of whose flushes one fails.
use php_clickhouse.Base.{Bytes, codes, List, [], ◌∷◌, none, length, if◌then◌else◌, ◌==◌}
use php_clickhouse.Base.Int.{ℤ, pos, negsuc}
use php_clickhouse.Errors.{Exception, validation_error, returns, throws}
use php_clickhouse.Php.{Zval, is_long, is_array, Entries, nil, entry, name}
use php_clickhouse.Connection.{fresh}
use php_clickhouse.Result.{Row}
use php_clickhouse.ResultObject.{ResultObject}
use php_clickhouse.Insert.{InsertRow, cells, not_array, Library}
use php_clickhouse.Batch.Delivery.{Op, appends, flushes, History}
use php_clickhouse.Batch.Release.{opened}
use php_clickhouse.Column.{scalar, map_of, int, w8, string}
use php_clickhouse.Column.Stored.{of_int, of_string, Plain}
use php_clickhouse.Column.Trees.{Tree, blank, whole_numbers, pairs, type_of, trees, php}
use php_clickhouse.Column.Block.{append_cell}
use php_clickhouse.Column.Table.{Sort}

abbrev names : List Bytes
names = codes "n" ∷ codes "m" ∷ []

abbrev sorts : List Sort
unfolding Plain
sorts =
    (scalar (int w8), of_int w8)
    ∷ (map_of (scalar string) (scalar (int w8)), (of_string, of_int w8))
    ∷ []

abbrev sample : List Tree
sample = blank whole_numbers ∷ blank pairs ∷ []

abbrev refused : Exception
refused = record { kind = validation_error; what = codes "refused"; code = pos 0 }

-- The fifth call, which sends the block of the second flush, fails.
abbrev wire : Library Tree
wire = record {
  begins = λ cs. returns sample;
  answers = λ cs. if length cs == 5 then throws refused else returns tt;
  leaves = λ cs. none;
  clone_empty = trees.clone_empty;
}

abbrev row : ℤ → Entries → InsertRow Zval
row n m = cells (is_long n ∷ is_array m ∷ [])

abbrev pair_of : ℤ → Entries
pair_of n = entry (name (codes "k")) (is_long n) nil

abbrev ops : List (Op Zval)
ops =
    appends (row (pos 300) nil)
    ∷ flushes
    ∷ appends (row (negsuc 0) (pair_of (pos 200)))
    ∷ flushes
    ∷ appends not_array
    ∷ appends (row (pos 7) (pair_of (pos 1)))
    ∷ flushes
    ∷ appends (row (pos 8) nil)
    ∷ []

abbrev new : History Tree Zval
new = opened (append_cell php trees type_of) wire fresh (codes "t") names

abbrev read_row : ℤ → Entries → Row Zval
read_row n m = (codes "n", is_long n) ∷ (codes "m", is_array m) ∷ []
