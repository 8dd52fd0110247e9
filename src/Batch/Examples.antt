-- ===== src/Batch/Examples.antt =====
-- A batch into a table of one column of numbers.
use php_clickhouse.Base.{ℕ, refl, codes, List, [], ◌∷◌, ◌++◌, none}
use php_clickhouse.Errors.{Outcome, returns}
use php_clickhouse.Connection.{fresh, before_release, mark_broken}
use php_clickhouse.Insert.{
  cells, not_array, Library, send_block, send_filled, fill_block, fill_rows, fill_row, fill_cells,
  check_count, after_send, after_end, make, called,
}
use php_clickhouse.Batch.{Batch, start, append, flush, flush_rows, flushed, free, release}
use php_clickhouse.Batch.Delivery.{
  Op, appends, flushes, History, Sound, run, step, run-Sound, Flushes, flush-sends,
}
use php_clickhouse.Batch.Release.{Outside, opened, reused-Outside}

abbrev append_number : List ℕ → ℕ → Outcome (List ℕ)
append_number c x = returns (c ++ x ∷ [])

abbrev one_column : Library (List ℕ)
one_column = record {
  begins = λ calls. returns ([] ∷ []);
  answers = λ calls. returns tt;
  leaves = λ calls. none;
  clone_empty = λ c. [];
}

-- Two rows are accepted and one is not; then the rows are sent, and one more is buffered.
abbrev used : List (Op ℕ)
used =
    appends (cells (7 ∷ []))
    ∷ appends not_array
    ∷ appends (cells (8 ∷ []))
    ∷ flushes
    ∷ appends (cells (9 ∷ []))
    ∷ []

abbrev new_batch : History (List ℕ) ℕ
new_batch = opened append_number one_column fresh (codes "t") (codes "n" ∷ [])

new_batch-Sound : Sound append_number one_column new_batch
unfolding start
new_batch-Sound = record { all_there = refl; all_wide = tt }

run-Sound_example : Sound append_number one_column (run append_number one_column used new_batch)
run-Sound_example = run-Sound append_number one_column used new_batch new_batch-Sound

abbrev filled_batch : Batch ℕ
filled_batch = (append (cells (7 ∷ [])) new_batch.batch).0

flush-sends_example :
    Flushes append_number one_column filled_batch []
      (cells (7 ∷ []) ∷ [])
      (flush append_number one_column filled_batch [] none)
unfolding append start
flush-sends_example = flush-sends append_number one_column filled_batch [] none (λ e. cc)

reused-Outside_example :
    Outside append_number one_column fresh (run append_number one_column used new_batch).calls
unfolding run step append start flush flush_rows flushed free release mark_broken before_release
    send_block send_filled fill_block fill_rows fill_row fill_cells check_count after_send after_end
    make called
reused-Outside_example =
    reused-Outside append_number one_column fresh (codes "t") (codes "n" ∷ []) used fresh refl refl
