-- ===== src/Result/Examples.antt =====
-- Queries whose answers are written out.
use php_clickhouse.Base.{
  ℕ, ◌≡◌, refl, codes, true, false, List, [], ◌∷◌, none, some, length, get_or,
}
use php_clickhouse.Base.Int.{pos}
use php_clickhouse.Errors.{
  Exception, Outcome, returns, throws, exception_poisons_connection, connection_error,
  validation_error,
}
use php_clickhouse.Connection.{Connection, fresh, before_release, mark_broken}
use php_clickhouse.Stream.{Block, Stream, block, finished, begun}
use php_clickhouse.Result.{
  Result, start, prime, init, absorb, load_block, finish, release, free, next, convert_row, deliver,
  emit, caught, hash_update, on_packets,
}
use php_clickhouse.Result.Release.{Reached, started, called, released_once, abandoned_is_dropped}

-- A column is the list of its values.
abbrev value_at : List ℕ → ℕ → Outcome ℕ
value_at c i = returns (get_or c i 0)

-- An empty header block, and a block of two rows.
abbrev header : Block (List ℕ)
header = record { columns = (codes "n", []) ∷ []; row_count = 0 }

abbrev two_rows : Block (List ℕ)
two_rows = record { columns = (codes "n", 7 ∷ 8 ∷ []) ∷ []; row_count = 2 }

abbrev answered : Stream (List ℕ)
answered = block [] header (block [] two_rows (finished []))

abbrev lost : Exception
lost = record { kind = connection_error; what = codes "lost"; code = pos 0 }

abbrev bad_cell : Exception
bad_cell = record { kind = validation_error; what = codes "bad cell"; code = pos 0 }

abbrev after_start : Result (List ℕ)
after_start = (start fresh (begun answered) none).0

abbrev after_rows : Result (List ℕ)
after_rows = (next value_at (next value_at (next value_at after_start none).0 none).0 none).0

three_calls : Reached value_at after_start after_rows
three_calls = called none (called none (called none started))

first_row : (next value_at after_start none).1 ≡ some ((codes "n", 7) ∷ [])
unfolding start prime init absorb load_block on_packets next emit deliver convert_row hash_update
first_row = refl

released_once_example : length (free after_rows).pool_releases ≡ 1
released_once_example = released_once value_at fresh (begun answered) none after_rows three_calls

abandoned_is_dropped_example :
    (c : Connection) × ((free after_start).pool_releases ≡ c ∷ []) × (before_release c ≡ false)
unfolding start prime init absorb load_block on_packets
abandoned_is_dropped_example =
    abandoned_is_dropped value_at fresh (begun answered) none after_start started refl

-- A cell that does not convert.
abbrev no_value : List ℕ → ℕ → Outcome ℕ
no_value c i = throws bad_cell

-- The row at hand does not convert, with an exception that does not poison the connection: it goes back as one that the
-- pool may keep, though the end of the stream is unread.
half_read :
    ((next no_value after_start none).0.pool_releases ≡ fresh ∷ [])
    × (before_release fresh ≡ true)
    × ((next no_value after_start none).0.stream ≡ finished [])
unfolding start prime init absorb load_block on_packets convert_row exception_poisons_connection
    next emit deliver finish release caught before_release mark_broken
half_read = (refl, refl, refl)
