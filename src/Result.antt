-- ===== src/Result.antt =====
-- `ch_result` of ch_client.cpp: a query whose blocks are pulled one after another. The state holds the
-- wrapper of the connection and the calls of `ZEND_ASYNC_POOL_RELEASE` made so far, each with the
-- connection as it was then. `elapsed`, a reading of the clock, is left out.
pub mod Lifecycle
pub mod Moves
pub mod Release
pub mod Rows
pub mod Delivery
pub mod Prime
pub mod Statistics
pub mod Account
mod Examples
use php_clickhouse.Base.{
  bytes_eq, ℕ, zero, suc, ◌+◌, ◌%◌, ◌^◌, Bytes, Bool, true, false, not, ◌&&◌, List, [], ◌∷◌, ◌++◌,
  map, Option, none, some, ltb, ◌==◌, if◌then◌else◌,
}
use php_clickhouse.Errors.{
  Exception, Outcome, returns, throws, PhpException, exception_poisons_connection,
  translate_and_throw, pending_after,
}
use php_clickhouse.Connection.{Connection, mark_broken}
use php_clickhouse.Stream.{
  Packet, progress, profile, Progress, Profile, Block, Stream, block, finished, fails, exhausted,
  Opening, begun, refused,
}

pub record Summary : Type 0 where
  pub read_rows : ℕ
  pub read_bytes : ℕ
  pub written_rows : ℕ
  pub written_bytes : ℕ
  pub total_rows_to_read : ℕ
  pub rows_before_limit : ℕ
  pub has_rows_before_limit : Bool

abbrev pub empty_summary : Summary
empty_summary = record {
  read_rows = 0;
  read_bytes = 0;
  written_rows = 0;
  written_bytes = 0;
  total_rows_to_read = 0;
  rows_before_limit = 0;
  has_rows_before_limit = false;
}

-- The callbacks that `ch_result_start` registers. Sums are uint64_t.
pub on_progress : Progress → Summary → Summary
on_progress p s = record s {
  read_rows = (s.read_rows + p.rows) % 2 ^ 64;
  read_bytes = (s.read_bytes + p.bytes) % 2 ^ 64;
  written_rows = (s.written_rows + p.written_rows) % 2 ^ 64;
  written_bytes = (s.written_bytes + p.written_bytes) % 2 ^ 64;
  total_rows_to_read =
      if ltb s.total_rows_to_read p.total_rows then p.total_rows else s.total_rows_to_read;
}

pub on_profile : Profile → Summary → Summary
on_profile p s =
    if p.calculated_rows_before_limit
    then record s { rows_before_limit = p.rows_before_limit; has_rows_before_limit = true }
    else s

pub on_packet : Packet → Summary → Summary
on_packet (progress p) s = on_progress p s
on_packet (profile p) s = on_profile p s

unfoldable pub on_packets : List Packet → Summary → Summary
on_packets [] s = s
on_packets (p ∷ ps) s = on_packets ps (on_packet p s)

-- A row: an ordered PHP array from column names to values.
abbrev pub Row : Type 0 → Type 0
Row Value = List (Bytes × Value)

-- zend_hash_update: a key that is there keeps its place and gets the new value.
unfoldable pub hash_update : {Value : Type 0} → Bytes → Value → Row Value → Row Value
hash_update key v [] = (key, v) ∷ []
hash_update key v ((k, w) ∷ row) =
    if bytes_eq k key then (k, v) ∷ row else (k, w) ∷ hash_update key v row

pub record Result (Column : Type 0) : Type 0 where
  pub conn : Connection
  pub pool_releases : List Connection
  pub stream : Stream Column
  pub cols : List Column
  pub keys : List Bytes
  pub row : ℕ
  pub rows : ℕ
  pub done : Bool
  pub broken : Bool
  pub released : Bool
  pub summary : Summary

-- A call that may throw into PHP: the state after it, its answer, and the pending exception.
abbrev pub Reply : Type 0 → Type 0 → Type 0
Reply Column A = Result Column × A × Option PhpException

module _ {Column : Type 0} where
  unfoldable pub init : Connection → Result Column
  init conn = record {
    conn = conn;
    pool_releases = [];
    stream = exhausted;
    cols = [];
    keys = [];
    row = 0;
    rows = 0;
    done = false;
    broken = false;
    released = false;
    summary = empty_summary;
  }

  unfoldable pub release : Result Column → Result Column
  release r =
      let conn = mark_broken r.broken r.conn in
      if r.released
      then r
      else record r { conn = conn; pool_releases = r.pool_releases ++ conn ∷ []; released = true }

  unfoldable pub finish : Result Column → Result Column
  finish r = release (if r.done then r else record r { done = true })

  unfoldable pub load_block : Block Column → Result Column → Result Column
  load_block b r = record r {
    rows = b.row_count;
    row = 0;
    cols = map (λ c. c.1) b.columns;
    keys = map (λ c. c.0) b.columns;
  }

  -- The callbacks that one call of `NextBlock` makes, and the calls that are left.
  unfoldable pub absorb : List Packet → Stream Column → Result Column → Result Column
  absorb ps rest r = record r { summary = on_packets ps r.summary; stream = rest }

  -- The handlers of `ch_result_start` and `ch_result_next`.
  pub caught : {A : Type 0} → Exception → A → Result Column → Option PhpException → Reply Column A
  caught e answer r pending = (
    finish (record r { broken = exception_poisons_connection e }),
    answer,
    translate_and_throw e pending,
  )

  -- The loop of `ch_result_start` that looks for the first block with rows. The answer is whether
  -- there is a handle.
  unfoldable pub prime : Stream Column → Result Column → Option PhpException → Reply Column Bool
  prime (block ps b rest) r pending =
      let r' = absorb ps rest r in
      let again = prime rest r' pending in
      if ltb 0 b.row_count then (load_block b r', true, pending) else again
  prime (finished ps) r pending = (finish (absorb ps exhausted r), true, pending)
  prime (fails ps thrown e) r pending =
      caught e false (absorb ps exhausted r) (pending_after pending thrown)
  prime exhausted r pending = (r, true, pending)

  unfoldable pub start : Connection → Opening Column → Option PhpException → Reply Column Bool
  start conn (begun s) pending = prime s (record (init conn) { stream = s }) pending
  start conn (refused thrown e) pending = caught e false (init conn) (pending_after pending thrown)

  -- A handle that is freed before its end drops the connection.
  pub free : Result Column → Result Column
  free r =
      let r' = if r.done then r else record r { broken = true } in
      if r.released then r else release r'

  unfoldable pub get_summary : Result Column → Summary
  get_summary r = r.summary

-- `cell` converts one cell to a PHP value, as `ch_column_value_to_zval` does.
module _ {Column Value : Type 0} (cell : Column → ℕ → Outcome Value) where
  -- The inner loop of `ch_result_next` over the columns of one row.
  unfoldable pub convert_row : List Column → List Bytes → ℕ → Row Value → Outcome (Row Value)
  convert_row [] keys i out = returns out
  convert_row (c ∷ cs) [] i out = returns out
  convert_row (c ∷ cs) (k ∷ keys) i out = elim (cell c i) [
    | returns v ↦ convert_row cs keys i (hash_update k v out)
    | throws e ↦ throws e
  ]

  -- The row goes out, or the handler of `ch_result_next` runs.
  unfoldable pub deliver :
      Outcome (Row Value) → Result Column → Option PhpException → Reply Column (Option (Row Value))
  deliver (returns row) r pending = (record r { row = r.row + 1 }, some row, pending)
  deliver (throws e) r pending = caught e none r pending

  unfoldable pub emit : Result Column → Option PhpException → Reply Column (Option (Row Value))
  emit r pending = deliver (convert_row r.cols r.keys r.row []) r pending

  -- The rest of the loop of `ch_result_next` once the current block has no further row.
  unfoldable pub pull :
      Stream Column → Result Column → Option PhpException → Reply Column (Option (Row Value))
  pull (block ps b rest) r pending =
      let r' = load_block b (absorb ps rest r) in
      let again = pull rest r' pending in
      if ltb r'.row r'.rows then emit r' pending else if r'.done then (r', none, pending) else again
  pull (finished ps) r pending = (finish (absorb ps exhausted r), none, pending)
  pull (fails ps thrown e) r pending =
      caught e none (absorb ps exhausted r) (pending_after pending thrown)
  pull exhausted r pending = (r, none, pending)

  unfoldable pub next : Result Column → Option PhpException → Reply Column (Option (Row Value))
  next r pending =
      if ltb r.row r.rows
      then emit r pending
      else if r.done
      then (r, none, pending)
      else pull r.stream r pending
