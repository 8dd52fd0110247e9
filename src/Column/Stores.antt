-- ===== src/Column/Stores.antt =====
-- What it is that an appender writes what is read back, which the proofs on arrays, maps and tuples share.
use php_clickhouse.Base.{ℕ, suc, ◌≡◌, Bytes, String, some, arith}
use php_clickhouse.Base.Int.{ℤ}
use php_clickhouse.Errors.{returns}
use php_clickhouse.Php.{Zval, is_array, Entries, nil, entry, Engine}
use php_clickhouse.Column.{ColumnType, Columns}
use php_clickhouse.Column.Append.{Templates, Appender, expect_array, append_value}
use php_clickhouse.Column.Read.{column_value}
use php_clickhouse.Column.Sizes.{CountsRows, HasRows}
use php_clickhouse.Column.Earlier.{KeepsRows}
use php_clickhouse.Column.Scalars.{KeepsCells}
use php_clickhouse.Column.Types.{KeepsTypes, Typed}
use php_clickhouse.Column.Cache.{Same, Known, Agree}
use php_clickhouse.Column.Agreement.{append_value-Agrees}

-- What is documented of the client library's columns: one that was created and emptied has no rows, nor have its
-- parts; a tuple has the members that it was made of and is as long as the first; and the row of a map that was
-- appended last has the entries of the array that it was made of.
pub record MakesMaps {Column : Type 0} (lib : Columns Column) : Type 0 where
  pub create_empty :
      (ty : ColumnType) (c : Column) → lib.create ty ≡ some c → HasRows lib ty 0 (lib.clone_empty c)
  pub tuple_first : (k v : Column) → lib.member (lib.tuple_column k v) 0 ≡ k
  pub tuple_second : (k v : Column) → lib.member (lib.tuple_column k v) 1 ≡ v
  pub tuple_size : (k v : Column) → lib.size (lib.tuple_column k v) ≡ lib.size k
  pub map_cell :
      (e row c c' : Column)
      → lib.append_as_column e (lib.array_column (lib.clone_empty e)) ≡ returns row
      → lib.append_map row c ≡ returns c'
      → lib.entries_at c' (lib.size c) ≡ returns e

-- All that is documented of the columns that are written and read.
pub record Documented {Column : Type 0} (lib : Columns Column) (type_of : Column → ColumnType)
    (lives : Column → Type 0) : Type 0 where
  pub counts : CountsRows lib
  pub keeps : KeepsRows lib
  pub keeps_cells : KeepsCells lib
  pub types : KeepsTypes lib type_of lives
  pub makes : MakesMaps lib

-- The number of elements of an array.
unfoldable pub count : Entries → ℕ
count nil = 0
count (entry k v es) = suc (count es)

pub expect_array-eq :
    (what : String) (v : Zval) (es : Entries) → expect_array what v ≡ returns es → v ≡ is_array es
unfolding expect_array
expect_array-eq what v es h = ground arith

module _ {Column : Type 0} (php : Engine) (show : ℤ → Bytes) (lib : Columns Column)
    (type_of : Column → ColumnType) (lives : Column → Type 0) where
  -- An appender of one type makes the new row read as what is stored.
  unfoldable pub Stores : (ty : ColumnType) → (Zval → Zval) → Appender lib → Type 0
  Stores ty f append =
      (c : Column) (v : Zval) (tmpl tmpl' : Templates Column) (c' : Column) (n : ℕ)
      → append c v tmpl ≡ returns (c', tmpl')
      → HasRows lib ty n c
      → Typed type_of lives ty c
      → Known lib type_of lives tmpl
      → column_value php show lib ty c' n ≡ returns (f v)

  -- The column keeps its type and the cache what it holds.
  pub append_value-Known :
      (types : KeepsTypes lib type_of lives) (ty : ColumnType) (c : Column) (v : Zval)
      (tmpl tmpl' : Templates Column) (c' : Column)
      → append_value php lib ty c v tmpl ≡ returns (c', tmpl')
      → Typed type_of lives ty c
      → Known lib type_of lives tmpl
      → Typed type_of lives ty c' × Known lib type_of lives tmpl'
  append_value-Known types ty c v tmpl tmpl' c' h e known =
      let same : Same (Agree lib type_of lives ty) (returns (c', tmpl')) (returns (c', tmpl')) =
        rw h at (append_value-Agrees php lib type_of types ty c v tmpl tmpl e known known) in
      (same.1, same.2)
