-- ===== src/Batch.antt =====
-- `ch_batch` of ch_client.cpp: rows are buffered and each flush sends them as one insert.
pub mod Delivery
pub mod Blocks
pub mod Moves
pub mod Release
mod Examples
use php_clickhouse.Base.{
  ℕ, suc, ◌%◌, ◌^◌, Bytes, codes, Bool, true, false, List, [], ◌∷◌, ◌++◌, Option, none, some, ◌==◌,
  if◌then◌else◌, length, format_decimal,
}
use php_clickhouse.Base.Int.{pos}
use php_clickhouse.Errors.{Outcome, PhpException, ce_value_error}
use php_clickhouse.Connection.{Connection, mark_broken}
use php_clickhouse.Insert.{
  InsertRow, cells, not_array, Library, Call, Wire, send_block, build_insert_statement,
}

-- `pool_releases` holds the calls of `ZEND_ASYNC_POOL_RELEASE`, each with the connection as it was then.
pub record Batch (Cell : Type 0) : Type 0 where
  pub conn : Connection
  pub pool_releases : List Connection
  pub statement : Bytes
  pub names : List Bytes
  pub pending : List (InsertRow Cell)
  pub broken : Bool
  pub released : Bool

-- "%u" of a number that is cast to unsigned.
format_u : ℕ → Bytes
format_u n = format_decimal (n % 2 ^ 32)

value_error : Bytes → PhpException
value_error message = record { cls = ce_value_error; message = message; code = pos 0 }

pub not_a_row : PhpException
unfolding value_error
not_a_row = value_error (codes "clickhouse: each insert row must be an array")

pub wrong_width : ℕ → ℕ → PhpException
unfolding value_error format_u
wrong_width values columns = value_error (
    codes "clickhouse: row has "
    ++ (format_u values
        ++ (codes " values but the batch has " ++ (format_u columns ++ codes " columns"))))

module _ {Cell : Type 0} where
  unfoldable pub start : Connection → Bytes → List Bytes → Batch Cell
  start conn table columns = record {
    conn = conn;
    pool_releases = [];
    statement = build_insert_statement table columns;
    names = columns;
    pending = [];
    broken = false;
    released = false;
  }

  -- The new state, and the exception of a row that is refused.
  unfoldable pub append : InsertRow Cell → Batch Cell → Batch Cell × Option PhpException
  append not_array b = (b, some not_a_row)
  append (cells xs) b =
      if length xs == length b.names
      then (record b { pending = b.pending ++ cells xs ∷ [] }, none)
      else (b, some (wrong_width (length xs) (length b.names)))

  pub count : Batch Cell → ℕ
  count b = length b.pending

  pub release : Batch Cell → Batch Cell
  release b =
      let conn = mark_broken b.broken b.conn in
      if b.released
      then b
      else record b { conn = conn; pool_releases = b.pool_releases ++ conn ∷ []; released = true }

  pub free : Batch Cell → Batch Cell
  free b = release (record b { pending = [] })

module _ {Column Cell : Type 0} (append_value : Column → Cell → Outcome Column)
    (lib : Library Column) where
  -- What the client library has been called for, and the pending exception, beside the batch.
  unfoldable pub flushed :
      Batch Cell → Wire Column × Bool → Batch Cell × List (Call Column) × Option PhpException × Bool
  flushed b (w, true) = (record b { pending = []; broken = w.broken }, w.calls, w.pending, true)
  flushed b (w, false) = (record b { broken = w.broken }, w.calls, w.pending, false)

  unfoldable pub flush_rows :
      List (InsertRow Cell)
      → Batch Cell
      → List (Call Column)
      → Option PhpException
      → Batch Cell × List (Call Column) × Option PhpException × Bool
  flush_rows [] b calls p = (b, calls, p, true)
  flush_rows (row ∷ rows) b calls p = flushed b (
      send_block append_value lib b.statement b.names (row ∷ rows)
        (record { calls = calls; broken = b.broken; pending = p }))

  unfoldable pub flush :
      Batch Cell
      → List (Call Column)
      → Option PhpException
      → Batch Cell × List (Call Column) × Option PhpException × Bool
  flush b calls p = flush_rows b.pending b calls p
