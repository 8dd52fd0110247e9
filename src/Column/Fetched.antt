-- ===== src/Column/Fetched.antt =====
-- An insert by `ch_send_block`, and fetchAll on a query that answers the block that was sent.
use php_clickhouse.Base.{ℕ, suc, ◌≡◌, refl, ap, Bytes, List, [], ◌∷◌, ◌++◌, map, length}
use php_clickhouse.Base.Int.{ℤ}
use php_clickhouse.Errors.{returns, >>=-eq-returns}
use php_clickhouse.Php.{Zval, Engine}
use php_clickhouse.Connection.{Connection}
use php_clickhouse.Stream.{Packet, Block}
use php_clickhouse.Result.{Row}
use php_clickhouse.ResultObject.{ResultObject}
use php_clickhouse.ResultObject.Blocks.{Converts, AllConvert}
use php_clickhouse.Insert.{
  InsertRow, cells, not_array, Library, begin_insert, name_columns, Call, filled,
}
use php_clickhouse.Column.{ColumnType, Columns}
use php_clickhouse.Column.Stores.{Documented}
use php_clickhouse.Column.Block.{append_cell}
use php_clickhouse.Column.Table.{Sort, Holds, ReadsRows, read_cell, stored_row}
use php_clickhouse.Column.Inserted.{fill_block-Reads}

-- The rows as they are read; what is no array is no row.
unfoldable pub stored_rows :
    Engine → List Sort → List Bytes → List (InsertRow Zval) → List (Row Zval)
stored_rows php ss keys [] = []
stored_rows php ss keys (not_array ∷ rows) = stored_rows php ss keys rows
stored_rows php ss keys (cells xs ∷ rows) =
    stored_row php ss keys xs [] ∷ stored_rows php ss keys rows

pub stored_rows-++ :
    (php : Engine) (ss : List Sort) (names : List Bytes) (xs ys : List (InsertRow Zval))
    → stored_rows php ss names (xs ++ ys)
      ≡ stored_rows php ss names xs ++ stored_rows php ss names ys
unfolding stored_rows
stored_rows-++ php ss names [] ys = refl
stored_rows-++ php ss names (not_array ∷ xs) ys = stored_rows-++ php ss names xs ys
stored_rows-++ php ss names (cells zs ∷ xs) ys =
    ap (λ rows. stored_row php ss names zs [] ∷ rows) (stored_rows-++ php ss names xs ys)

module _ {Column : Type 0} (php : Engine) (show : ℤ → Bytes) (lib : Columns Column)
    (type_of : Column → ColumnType) where
  ReadsRows-Converts :
      (ss : List Sort) (keys : List Bytes) (n : ℕ) (cs : List Column) (rows : List (InsertRow Zval))
      → ReadsRows php show lib type_of ss keys n cs rows
      → Converts (read_cell php show lib type_of) cs keys n (stored_rows php ss keys rows)
        × (length (stored_rows php ss keys rows) ≡ length rows)
  unfolding stored_rows
  ReadsRows-Converts ss keys n cs [] h = (tt, refl)
  ReadsRows-Converts ss keys n cs (not_array ∷ rows) h = absurd h
  ReadsRows-Converts ss keys n cs (cells xs ∷ rows) (this, h) =
      let (rest, same) = ReadsRows-Converts ss keys (suc n) cs rows h in ((this, rest), ap suc same)

  -- The rows as a block of these columns.
  abbrev pub sent_block : List Bytes → List (InsertRow Zval) → List Column → Block Column
  sent_block names rows cs = record { row_count = length rows; columns = name_columns names cs }

  module _ {lives : Column → Type 0} (doc : Documented lib type_of lives) where
    -- A block that is filled with rows converts to them as they are stored.
    pub filled-AllConvert :
        (wire : Library Column) (ss : List Sort) (statement : Bytes) (names : List Bytes)
        (rows : List (InsertRow Zval)) (calls : List (Call Column)) (cs : List Column)
        (ps : List Packet)
        → ((sample : List Column)
            → wire.begins (calls ++ begin_insert statement ∷ []) ≡ returns sample
            → Holds lib type_of lives ss 0 (map wire.clone_empty sample))
        → filled (append_cell php lib type_of) wire statement names rows calls ≡ returns cs
        → AllConvert
            (read_cell php show lib type_of)
            ((ps, sent_block names rows cs) ∷ [])
            (stored_rows php ss names rows ∷ [])
    filled-AllConvert wire ss statement names rows calls cs ps holds h =
        let (sample, answer, plain) =
          >>=-eq-returns (wire.begins (calls ++ begin_insert statement ∷ [])) _ h in
        let (ns, columns, held, reads) =
          fill_block-Reads php show lib type_of doc wire ss names rows sample cs
            (holds sample answer) plain in
        let (converts, same) = ReadsRows-Converts ss names 0 cs rows reads in
        (same, rw (ns, columns) converts, tt)
