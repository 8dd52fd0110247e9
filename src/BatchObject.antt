-- ===== src/BatchObject.antt =====
-- The methods of the Batch class of clickhouse_async.cpp. `none` for the handle is an object that was made with
-- `new`, not by Client::insertBatch.
mod Examples
use php_clickhouse.Base.{ℕ, codes, Bool, List, Option, none, some}
use php_clickhouse.Base.Int.{ℤ, pos}
use php_clickhouse.Errors.{Outcome, PhpException, engine_error}
use php_clickhouse.Insert.{InsertRow, Library, Call}
use php_clickhouse.Batch
use php_clickhouse.Batch.{Batch}

-- The exception of `ch_batch_this`, of the engine's class Error.
pub not_constructed : PhpException
not_constructed = record {
  cls = engine_error;
  message =
      codes
        "TrueAsync\\ClickHouse\\Batch cannot be constructed directly; use Client::insertBatch()";
  code = pos 0;
}

module _ {Cell : Type 0} where
  pub append : InsertRow Cell → Option (Batch Cell) → Option (Batch Cell) × Option PhpException
  append row none = (none, some not_constructed)
  append row (some b) = let (b', p) = Batch.append row b in (some b', p)

  -- The number, or the exception.
  pub count : Option (Batch Cell) → Option ℕ × Option PhpException
  count none = (none, some not_constructed)
  count (some b) = (some (Batch.count b), none)

module _ {Column Cell : Type 0} (append_value : Column → Cell → Outcome Column)
    (lib : Library Column) where
  pub flush :
      List (Call Column)
      → Option (Batch Cell)
      → Option (Batch Cell) × List (Call Column) × Option PhpException
  flush calls none = (none, calls, some not_constructed)
  flush calls (some b) =
      let (b', calls', p, ok) = Batch.flush append_value lib b calls none in (some b', calls', p)
