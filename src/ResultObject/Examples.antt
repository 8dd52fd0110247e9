-- ===== src/ResultObject/Examples.antt =====
-- fetchAll and foreach over a query whose answer is written out.
use php_clickhouse.Base.{
  ℕ, ◌≡◌, refl, codes, List, [], ◌∷◌, none, some, arith, get_or, ◌==◌, if◌then◌else◌,
}
use php_clickhouse.Base.Int.{pos}
use php_clickhouse.Errors.{
  Exception, Outcome, returns, throws, connection_error, validation_error, translate_and_throw,
}
use php_clickhouse.Connection.{fresh}
use php_clickhouse.Stream.{Packet, progress, Block, Stream, block, finished, fails, Opening, begun}
use php_clickhouse.Result.Statistics.{sum_of, largest_of}
use php_clickhouse.Result.{
  Result, Row, start, prime, init, absorb, load_block, on_packets, hash_update, next, pull, emit,
  deliver, convert_row, finish, release,
}
use php_clickhouse.Result.Release.{started, called}
use php_clickhouse.Result.Account.{query_packets, packets_of}
use php_clickhouse.Result.Rows.{
  row_before, then_read, rows_from, block_rows, stream_read, unless_done, left,
}
use php_clickhouse.ResultObject.{ResultObject, create, make_summary, affected_rows}
use php_clickhouse.ResultObject.Totals.{make_summary-drained}
use php_clickhouse.ResultObject.Rows.{query_all, fetch_all-start}
use php_clickhouse.ResultObject.Iteration.{foreach, foreach-rows}

abbrev value_of : List ℕ → ℕ → ℕ
value_of c i = get_or c i 0

abbrev value_at : List ℕ → ℕ → Outcome ℕ
value_at c i = returns (value_of c i)

abbrev row : ℕ → Row ℕ
row n = (codes "n", n) ∷ []

abbrev one_column : ℕ → List ℕ → Block (List ℕ)
one_column n values = record { columns = (codes "n", values) ∷ []; row_count = n }

-- Blocks of no row, of two and of one, and then the connection is lost.
abbrev lost : Exception
lost = record { kind = connection_error; what = codes "lost"; code = pos 0 }

abbrev answered : Stream (List ℕ)
answered =
    block [] (one_column 2 (7 ∷ 8 ∷ []))
      (block [] (one_column 0 []) (block [] (one_column 1 (9 ∷ [])) (fails [] none lost)))

fetch_all-start_example :
    (o : ResultObject (List ℕ) ℕ) × (query_all value_at 4 fresh answered none
      ≡ some (o, row 7 ∷ row 8 ∷ row 9 ∷ [], translate_and_throw lost none))
unfolding stream_read block_rows rows_from row_before then_read convert_row start prime init absorb
    load_block on_packets hash_update
fetch_all-start_example = fetch_all-start value_at fresh answered none 4 refl (omega arith)

-- The cell 9 does not convert.
abbrev bad_cell : Exception
bad_cell = record { kind = validation_error; what = codes "bad cell"; code = pos 0 }

abbrev small_at : List ℕ → ℕ → Outcome ℕ
small_at c i = if value_of c i == 9 then throws bad_cell else returns (value_of c i)

foreach-rows_example :
    foreach small_at 4 (create (some (start fresh (begun answered) none).0)) none
    ≡ some ((pos 0, some (row 7)) ∷ (pos 1, some (row 8)) ∷ [], translate_and_throw bad_cell none)
unfolding left unless_done stream_read block_rows rows_from row_before then_read convert_row start
    prime init absorb load_block on_packets hash_update
foreach-rows_example =
    foreach-rows small_at (start fresh (begun answered) none).0 none 4 (omega arith)

-- A result that received two progress packets.
abbrev two_packets : List Packet
two_packets =
    progress (record { rows = 3; bytes = 40; total_rows = 9; written_rows = 1; written_bytes = 8 })
    ∷ progress
        (record { rows = 4; bytes = 60; total_rows = 7; written_rows = 2; written_bytes = 9 })
    ∷ []

-- One block with a row, and packets before it and before the end.
abbrev counted_query : Opening (List ℕ)
counted_query = begun (block two_packets (one_column 1 (9 ∷ [])) (finished two_packets))

-- After the row and the end.
abbrev first_result : Result (List ℕ)
first_result = (start fresh counted_query none).0

abbrev counted : Result (List ℕ)
counted = (next value_at (next value_at first_result none).0 none).0

abbrev counting : ResultObject (List ℕ) ℕ
counting = create (some counted)

make_summary-drained_example :
    let s = make_summary counting.result in
    (s.read_rows ≡ pos 14)
    × (s.read_bytes ≡ pos 200)
    × (s.written_rows ≡ pos 6)
    × (s.written_bytes ≡ pos 34)
    × (s.total_rows_to_read ≡ pos 9)
    × (affected_rows counting ≡ pos 6)
unfolding sum_of largest_of create start prime init absorb load_block on_packets next pull emit
    deliver convert_row finish release query_packets packets_of
make_summary-drained_example =
    make_summary-drained value_at fresh counted_query none counting counted refl
      (called none (called none started)) refl (omega arith) (omega arith) (omega arith)
      (omega arith) (omega arith)
