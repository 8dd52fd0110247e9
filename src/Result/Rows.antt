-- ===== src/Result/Rows.antt =====
-- The rows that a query's blocks hold, up to the first that fails to convert, and what is pending once they are read:
-- what `ch_result_next` ought to deliver, said without its loop.
use php_clickhouse.Base.{
  ℕ, zero, suc, ◌-◌, Bytes, Bool, true, false, List, [], ◌∷◌, ◌++◌, map, Option, none, some,
}
use php_clickhouse.Errors.{
  Exception, Outcome, returns, throws, PhpException, translate_and_throw, pending_after,
}
use php_clickhouse.Stream.{Block, Stream, block, finished, fails, exhausted}
use php_clickhouse.Result.{Result, Row, convert_row}

-- The rows, and what is pending behind them.
abbrev pub Reading : Type 0 → Type 0
Reading Value = List (Row Value) × Option PhpException

-- A row before others, or the exception of its cell in their place.
unfoldable pub row_before :
    {Value : Type 0}
    → Outcome (Row Value)
    → List (Row Value) × Option Exception
    → List (Row Value) × Option Exception
row_before (returns row) (rows, e) = (row ∷ rows, e)
row_before (throws e) rest = ([], some e)

-- The rows of a block before what is read of the others; a cell that failed ends the reading.
unfoldable pub then_read :
    {Value : Type 0}
    → List (Row Value) × Option Exception
    → Option PhpException
    → Reading Value
    → Reading Value
then_read (rows, none) p (later, p') = (rows ++ later, p')
then_read (rows, some e) p later = (rows, translate_and_throw e p)

module _ {Column Value : Type 0} (cell : Column → ℕ → Outcome Value) where
  -- `n` rows from row `i` on.
  unfoldable pub rows_from : List Column → List Bytes → ℕ → ℕ → List (Row Value) × Option Exception
  rows_from cols keys i zero = ([], none)
  rows_from cols keys i (suc n) =
      row_before (convert_row cell cols keys i []) (rows_from cols keys (suc i) n)

  unfoldable pub block_rows : Block Column → List (Row Value) × Option Exception
  block_rows b = rows_from (map (λ c. c.1) b.columns) (map (λ c. c.0) b.columns) 0 b.row_count

  -- The rows of all blocks in order, up to the end or the failure.
  unfoldable pub stream_read : Stream Column → Option PhpException → Reading Value
  stream_read (block ps b rest) p = then_read (block_rows b) p (stream_read rest p)
  stream_read (finished ps) p = ([], p)
  stream_read (fails ps thrown e) p = ([], translate_and_throw e (pending_after p thrown))
  stream_read exhausted p = ([], p)

  unfoldable pub unless_done : Bool → Stream Column → Option PhpException → Reading Value
  unless_done true s p = ([], p)
  unless_done false s p = stream_read s p

  -- What a result has still to deliver.
  unfoldable pub left : Result Column → Option PhpException → Reading Value
  left r p =
      then_read (rows_from r.cols r.keys r.row (r.rows - r.row)) p (unless_done r.done r.stream p)
