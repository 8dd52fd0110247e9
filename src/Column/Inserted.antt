-- ===== src/Column/Inserted.antt =====
-- The block that `ch_send_block` fills, taken as a block that a query answers.
use php_clickhouse.Base.{
  ◌+◌, ◌≡◌, refl, ◌∙◌, sym, ap, subst, Bytes, List, map, length, length-map, arith,
}
use php_clickhouse.Base.Int.{ℤ}
use php_clickhouse.Errors.{returns}
use php_clickhouse.Php.{Zval, Engine}
use php_clickhouse.Result.{Result, load_block}
use php_clickhouse.Insert.{InsertRow, Library, fill_block, name_columns}
use php_clickhouse.Insert.Shape.{fill_block-returns, name_columns-parts}
use php_clickhouse.Column.{ColumnType, Columns}
use php_clickhouse.Column.Append.{Templates}
use php_clickhouse.Column.Stores.{Documented}
use php_clickhouse.Column.Block.{
  without_cache, append_cell, fill_block_cached, fill_block_cached-fill_block,
}
use php_clickhouse.Column.Table.{
  Sort, Holds, ReadsRows, fill_rows-Plain, Holds-length, Holds-AllLasting,
}

module _ {Column : Type 0} (php : Engine) (show : ℤ → Bytes) (lib : Columns Column)
    (type_of : Column → ColumnType) {lives : Column → Type 0}
    (doc : Documented lib type_of lives) where
  -- A filled block has its names and columns, with all its rows.
  pub fill_block-Reads :
      (wire : Library Column) (ss : List Sort) (names : List Bytes) (rows : List (InsertRow Zval))
      (sample cs : List Column)
      → Holds lib type_of lives ss 0 (map wire.clone_empty sample)
      → fill_block (append_cell php lib type_of) wire names rows sample ≡ returns cs
      → (map (λ c. c.0) (name_columns names cs) ≡ names)
        × (map (λ c. c.1) (name_columns names cs) ≡ cs)
        × Holds lib type_of lives ss (length rows) cs
        × ReadsRows php show lib type_of ss names 0 cs rows
  fill_block-Reads wire ss names rows sample cs h plain =
      let (count, filled) = fill_block-returns _ wire names rows sample cs plain in
      let (held, _, reads) =
        fill_rows-Plain php show lib type_of doc ss names rows (map wire.clone_empty sample) cs 0 h
          filled in
      let (ns, columns) = name_columns-parts names cs (
        Holds-length lib type_of lives ss _ cs held
        ∙ sym (Holds-length lib type_of lives ss 0 _ h)
        ∙ length-map sample wire.clone_empty
        ∙ count) in
      let sum : 0 + length rows ≡ length rows = omega arith in
      (ns, columns, subst (λ n. Holds lib type_of lives ss n cs) sum held, reads)

  -- The block that an insert fills with its cache, loaded as a block that a query answers: its columns have the names
  -- that the insert gave and as many rows as were inserted, and `convert_row` reads those rows, one after the other
  -- from row 0, as the inserted rows are stored. This holds where every column of the sample is of a type that gives
  -- back what is stored and is emptied of its rows by CloneEmpty, and where the columns of
  -- the library do what is documented of them.
  pub convert_row-fill_block :
      (wire : Library Column) (ss : List Sort) (names : List Bytes) (rows : List (InsertRow Zval))
      (sample cs : List Column) (tmpl : Templates Column) (r : Result Column)
      → wire.clone_empty ≡ lib.clone_empty
      → Holds lib type_of lives ss 0 (map wire.clone_empty sample)
      → fill_block_cached php lib type_of names rows sample ≡ returns (cs, tmpl)
      → let loaded =
          load_block (record { row_count = length rows; columns = name_columns names cs }) r in
        (loaded.keys ≡ names)
        × Holds lib type_of lives ss loaded.rows loaded.cols
        × ReadsRows php show lib type_of ss loaded.keys loaded.row loaded.cols rows
  unfolding without_cache load_block
  convert_row-fill_block wire ss names rows sample cs tmpl r same h e =
      let plain : fill_block (append_cell php lib type_of) wire names rows sample ≡ returns cs =
        sym (
          fill_block_cached-fill_block php lib type_of doc.types wire names rows sample same
            (Holds-AllLasting lib type_of lives ss 0 _ h))
        ∙ ap without_cache e in
      let (ns, columns, held, reads) = fill_block-Reads wire ss names rows sample cs h plain in
      rw (ns, columns) (refl, held, reads)
