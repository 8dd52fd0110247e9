-- ===== src/ResultObject.antt =====
-- `ch_result_object` of clickhouse_async.cpp, the PHP object of a query's result: the iterator methods
-- over `ch_result_next`, and fetch, fetchAll, fetchOne and affectedRows. `none` for the handle is an object
-- that was made without a query.
pub mod Rows
pub mod Blocks
pub mod Iteration
pub mod Totals
mod Examples
use php_clickhouse.Base.{
  ℕ, zero, suc, Bytes, Bool, true, false, List, [], ◌∷◌, ◌++◌, Option, none, some, if◌then◌else◌,
}
use php_clickhouse.Base.Int.{ℤ, pos, negsuc, ◌+ℤ◌, to_signed}
use php_clickhouse.Errors.{Outcome, PhpException}
use php_clickhouse.Result
use php_clickhouse.Result.{Result, Row, Reply, Summary, empty_summary}

pub record ResultObject (Column Value : Type 0) : Type 0 where
  pub result : Option (Result Column)
  pub current : Option (Row Value)
  pub pos : ℤ
  pub valid : Bool
  pub started : Bool

-- The first column of a row, by its position: a row is keyed by names, so index 0 is not found and
-- the array's current element, its first, is taken.
pub first_value : {Value : Type 0} → Option (Row Value) → Option Value
first_value none = none
first_value (some []) = none
first_value (some ((k, v) ∷ row)) = some v

module _ {Column Value : Type 0} where
  pub fetch_step :
      Result Column × Option (Row Value) × Option PhpException
      → List (Row Value)
      → (Result Column
          → List (Row Value)
          → Option PhpException
          → Option (Result Column × List (Row Value) × Option PhpException))
      → Option (Result Column × List (Row Value) × Option PhpException)
  fetch_step (r, none, p) rows again = some (r, rows, p)
  fetch_step (r, some row, p) rows again = again r (rows ++ row ∷ []) p

  pub fetched_from :
      ResultObject Column Value
      → Option (Result Column × List (Row Value) × Option PhpException)
      → Option (ResultObject Column Value × List (Row Value) × Option PhpException)
  fetched_from o none = none
  fetched_from o (some (r, rows, p)) = some (record o { result = some r }, rows, p)

  pub advanced :
      ResultObject Column Value
      → Option (Result Column)
      → Option (Row Value)
      → ResultObject Column Value
  advanced o r (some row) = record o {
    result = r;
    current = some row;
    valid = true;
    pos = o.pos +ℤ pos 1;
  }
  advanced o r none = record o { result = r; current = none; valid = false }

module _ {Column Value : Type 0} (cell : Column → ℕ → Outcome Value) where
  -- obj->result != NULL && ch_result_next(obj->result, &row)
  pub next_row :
      Option (Result Column)
      → Option PhpException
      → Option (Result Column) × Option (Row Value) × Option PhpException
  next_row none p = (none, none, p)
  next_row (some r) p = let (r', row, p') = Result.next cell r p in (some r', row, p')

  pub fetch :
      ResultObject Column Value
      → Option PhpException
      → ResultObject Column Value × Option (Row Value) × Option PhpException
  fetch o p = let (r, row, p') = next_row o.result p in (record o { result = r }, row, p')

  -- The loop of fetchAll: while (ch_result_next(…)) append. Out of fuel it is `none`.
  pub fetch_loop :
      ℕ
      → Result Column
      → List (Row Value)
      → Option PhpException
      → Option (Result Column × List (Row Value) × Option PhpException)
  fetch_loop zero r rows p = none
  fetch_loop (suc fuel) r rows p = fetch_step (Result.next cell r p) rows (fetch_loop fuel)

  fetch_all_of :
      ℕ
      → ResultObject Column Value
      → Option (Result Column)
      → Option PhpException
      → Option (ResultObject Column Value × List (Row Value) × Option PhpException)
  fetch_all_of fuel o none p = some (o, [], p)
  fetch_all_of fuel o (some r) p = fetched_from o (fetch_loop fuel r [] p)

  pub fetch_all :
      ℕ
      → ResultObject Column Value
      → Option PhpException
      → Option (ResultObject Column Value × List (Row Value) × Option PhpException)
  unfolding fetch_all_of
  fetch_all fuel o p = fetch_all_of fuel o o.result p

  pub fetch_one :
      ResultObject Column Value
      → Option PhpException
      → ResultObject Column Value × Option Value × Option PhpException
  fetch_one o p =
      let (r, row, p') = next_row o.result p in (record o { result = r }, first_value row, p')

  -- Move the lookahead to the next row. The key moves only with a row.
  pub advance :
      ResultObject Column Value
      → Option PhpException
      → ResultObject Column Value × Option PhpException
  advance o p = let (r, row, p') = next_row o.result p in (advanced o r row, p')

  -- Only the first rewind pulls a row.
  pub rewind :
      ResultObject Column Value
      → Option PhpException
      → ResultObject Column Value × Option PhpException
  rewind o p = if o.started then (o, p) else advance (record o { started = true }) p

-- uint64_t to zend_long
pub to_zend_long : ℕ → ℤ
to_zend_long n = to_signed 64 (pos n)

pub summary_of : {Column : Type 0} → Option (Result Column) → Summary
summary_of none = empty_summary
summary_of (some r) = Result.get_summary r

module _ {Column Value : Type 0} where
  -- `ch_result_object_create` with the handle that Client::query stores in it.
  pub create : Option (Result Column) → ResultObject Column Value
  create r = record { result = r; current = none; pos = negsuc 0; valid = false; started = false }

  pub current_row : ResultObject Column Value → Option (Row Value)
  current_row o = if o.valid then o.current else none

  pub affected_rows : ResultObject Column Value → ℤ
  unfolding summary_of
  affected_rows o = to_zend_long (summary_of o.result).written_rows

-- The Summary object of PHP; `elapsed` is left out.
pub record SummaryObject : Type 0 where
  pub read_rows : ℤ
  pub read_bytes : ℤ
  pub written_rows : ℤ
  pub written_bytes : ℤ
  pub total_rows_to_read : ℤ
  pub rows_before_limit : Option ℤ

-- ch_make_summary
pub make_summary : {Column : Type 0} → Option (Result Column) → SummaryObject
unfolding summary_of
make_summary r =
    let s = summary_of r in
    record {
      read_rows = to_zend_long s.read_rows;
      read_bytes = to_zend_long s.read_bytes;
      written_rows = to_zend_long s.written_rows;
      written_bytes = to_zend_long s.written_bytes;
      total_rows_to_read = to_zend_long s.total_rows_to_read;
      rows_before_limit =
          if s.has_rows_before_limit then some (to_zend_long s.rows_before_limit) else none;
    }
