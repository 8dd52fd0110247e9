-- ===== src/Insert.antt =====
-- `ch_build_insert_statement` and `ch_send_block` of ch_client.cpp. Cells and
-- column names come as the PHP values that they are; `append_value` puts one into a column, as
-- `ch_append_value` does.
pub mod Statement
pub mod Shape
pub mod Session
mod Examples
use php_clickhouse.Base.{
  ℕ, zero, suc, Bytes, codes, String, Bool, true, false, List, [], ◌∷◌, ◌++◌, map, Option, none,
  some, ◌==◌, if◌then◌else◌, length,
}
use php_clickhouse.Base.Int.{pos}
use php_clickhouse.Errors.{
  ◌>>=◌, invalid, Exception, validation_error, Outcome, returns, throws, PhpException,
  exception_poisons_connection, translate_and_throw, pending_after,
}
use php_clickhouse.Connection.{Connection}

-- A `const char *` ends before its first zero byte.
pub c_string : Bytes → Bytes
c_string [] = []
c_string (c ∷ s) = if c == 0 then [] else c ∷ c_string s

-- The loop over the column names: the text so far, and whether `names` is still empty.
pub append_fields : Bytes → Bool → List Bytes → Bytes
append_fields fields first [] = fields
append_fields fields first (name ∷ names) =
    append_fields ((if first then fields else fields ++ codes ", ") ++ name) false names

pub build_insert_statement : Bytes → List Bytes → Bytes
build_insert_statement table columns =
    codes "INSERT INTO "
    ++ (c_string table ++ (codes " (" ++ (append_fields [] true columns ++ codes ") VALUES")))

-- One row of an insert: a PHP array of cells, or another PHP value.
pub data InsertRow (Cell : Type 0) : Type 0 where
  cells : List Cell → InsertRow Cell
  not_array : InsertRow Cell

-- The calls that the code makes of the client library.
pub data Call (Column : Type 0) : Type 0 where
  begin_insert : Bytes → Call Column
  send_insert_block : List (Bytes × Column) → Call Column
  end_insert : Call Column

-- The library and the server answer a call as the calls before it, and the call, make them answer. The
-- columns of the sample block are the answer to `BeginInsert`. A call may leave a PHP exception pending.
pub record Library (Column : Type 0) : Type 0 where
  pub begins : List (Call Column) → Outcome (List Column)
  pub answers : List (Call Column) → Outcome (Unit {0})
  pub leaves : List (Call Column) → Option PhpException
  pub clone_empty : Column → Column

-- The calls so far, the connection's `broken` flag, and the pending exception.
pub record Wire (Column : Type 0) : Type 0 where
  pub calls : List (Call Column)
  pub broken : Bool
  pub pending : Option PhpException

module _ {Column Cell : Type 0} (append_value : Column → Cell → Outcome Column) where
  -- The inner loop over the cells of a row: data[i] for i < count.
  unfoldable pub fill_cells : List Column → List Cell → Outcome (List Column)
  fill_cells [] [] = returns []
  fill_cells [] (x ∷ xs) = invalid "clickhouse: insert row has more values than columns"
  fill_cells (c ∷ cs) [] = invalid "clickhouse: insert row has fewer values than columns"
  fill_cells (c ∷ cs) (x ∷ xs) = do
    c' ← append_value c x
    cs' ← fill_cells cs xs
    returns (c' ∷ cs')

  unfoldable pub fill_row : List Column → InsertRow Cell → Outcome (List Column)
  fill_row cols not_array = invalid "clickhouse: each insert row must be an array"
  fill_row cols (cells xs) = fill_cells cols xs

  unfoldable pub fill_rows : List Column → List (InsertRow Cell) → Outcome (List Column)
  fill_rows cols [] = returns cols
  fill_rows cols (row ∷ rows) = fill_row cols row >>= λ cols'. fill_rows cols' rows

unfoldable pub check_count : {Column : Type 0} → ℕ → List Column → Outcome (List Column)
check_count count sample =
    if length sample == count
    then returns sample
    else invalid "clickhouse: insert column count does not match the table"

-- block.AppendColumn(names[i], data[i]) for each i
pub name_columns : {Column : Type 0} → List Bytes → List Column → List (Bytes × Column)
name_columns (n ∷ ns) (c ∷ cs) = (n, c) ∷ name_columns ns cs
name_columns ns cs = []

module _ {Column : Type 0} (lib : Library Column) where
  -- The state after a call.
  unfoldable pub called : Call Column → Wire Column → Wire Column
  called call w = record w {
    calls = w.calls ++ call ∷ [];
    pending = pending_after w.pending (lib.leaves (w.calls ++ call ∷ []));
  }

  -- A call that answers nothing, with what it does: return or throw.
  unfoldable pub make : Call Column → Wire Column → Wire Column × Outcome (Unit {0})
  make call w = (called call w, lib.answers (w.calls ++ call ∷ []))

  -- The handler of `ch_send_block` closes the session where the connection can still be used.
  unfoldable pub close_result : Wire Column × Outcome (Unit {0}) → Wire Column
  close_result (w, returns _) = w
  close_result (w, throws e) = record w { broken = true }

  unfoldable pub caught : Exception → Wire Column → Wire Column × Bool
  caught e w =
      let closed =
        if exception_poisons_connection e
        then record w { broken = true }
        else close_result (make end_insert w) in
      (record closed { pending = translate_and_throw e closed.pending }, false)

  -- The rest of the body after each step, and the handler where the step threw.
  unfoldable pub after_end : Wire Column × Outcome (Unit {0}) → Wire Column × Bool
  after_end (w, returns _) = (w, true)
  after_end (w, throws e) = caught e w

  unfoldable pub after_send : Wire Column × Outcome (Unit {0}) → Wire Column × Bool
  after_send (w, returns _) = after_end (make end_insert w)
  after_send (w, throws e) = caught e w

  unfoldable pub send_filled : List Bytes → Outcome (List Column) → Wire Column → Wire Column × Bool
  send_filled names (returns cols) w =
      after_send (make (send_insert_block (name_columns names cols)) w)
  send_filled names (throws e) w = caught e w

module _ {Column Cell : Type 0} (append_value : Column → Cell → Outcome Column)
    (lib : Library Column) where
  -- The typed columns of the block, from the sample block's.
  unfoldable pub fill_block :
      List Bytes → List (InsertRow Cell) → List Column → Outcome (List Column)
  fill_block names rows sample = do
    checked ← check_count (length names) sample
    fill_rows append_value (map lib.clone_empty checked) rows

  -- The sample block that the server answers, filled with the rows.
  abbrev pub filled :
      Bytes → List Bytes → List (InsertRow Cell) → List (Call Column) → Outcome (List Column)
  filled statement names rows cs = do
    sample ← lib.begins (cs ++ begin_insert statement ∷ [])
    fill_block names rows sample

  unfoldable pub send_block :
      Bytes → List Bytes → List (InsertRow Cell) → Wire Column → Wire Column × Bool
  send_block statement names rows w =
      send_filled lib names (filled statement names rows w.calls)
        (called lib (begin_insert statement) w)
