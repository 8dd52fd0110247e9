-- ===== src/Insert/Examples.antt =====
-- Inserts into a table of one or two columns of numbers.
use php_clickhouse.Base.{
  ℕ, ◌+◌, ◌≡◌, refl, codes, false, List, [], ◌∷◌, ◌++◌, none, arith, length, All, length-append,
}
use php_clickhouse.Base.Int.{pos}
use php_clickhouse.Errors.{Exception, validation_error, Outcome, returns}
use php_clickhouse.Insert.{
  InsertRow, cells, Call, Library, Wire, fill_cells, fill_row, fill_rows, fill_block, check_count,
  send_block,
}
use php_clickhouse.Insert.Shape.{HasWidth, fill_block-rectangular}
use php_clickhouse.Insert.Session.{Settled, send_block-Settled}

-- A column is the list of its numbers.
abbrev append_number : List ℕ → ℕ → Outcome (List ℕ)
append_number c x = returns (c ++ x ∷ [])

append_number-grows :
    (c : List ℕ) (x : ℕ) (c' : List ℕ) → append_number c x ≡ returns c' → length c' ≡ length c + 1
append_number-grows c x c' h = ground (arith, length-append c (x ∷ []))

abbrev accepted : List (Call (List ℕ)) → Outcome (Unit {0})
accepted calls = returns tt

-- A server that takes every call and has a table of one column.
abbrev one_column : Library (List ℕ)
one_column = record {
  begins = λ calls. returns ([] ∷ []);
  answers = accepted;
  leaves = λ calls. none;
  clone_empty = λ c. [];
}

abbrev idle : Wire (List ℕ)
idle = record { calls = []; broken = false; pending = none }

abbrev statement : List ℕ
statement = codes "INSERT INTO t (n) VALUES"

abbrev two_rows : List (InsertRow ℕ)
two_rows = cells (7 ∷ []) ∷ cells (8 ∷ []) ∷ []

-- The second row has a cell too many.
abbrev bad_rows : List (InsertRow ℕ)
bad_rows = cells (7 ∷ []) ∷ cells (8 ∷ 9 ∷ []) ∷ []

abbrev too_many : Exception
too_many = record {
  kind = validation_error;
  what = codes "clickhouse: insert row has more values than columns";
  code = pos 0;
}

abbrev filled_columns : List (List ℕ)
filled_columns = (7 ∷ 8 ∷ []) ∷ []

fill_block-rectangular_example :
    (length filled_columns ≡ length (codes "n" ∷ []))
    × All (λ c. length c ≡ 2) filled_columns
    × All (HasWidth 1) two_rows
unfolding fill_block check_count fill_rows fill_row fill_cells
fill_block-rectangular_example =
    fill_block-rectangular append_number length append_number-grows one_column (codes "n" ∷ [])
      two_rows ([] ∷ []) filled_columns (λ c. refl) refl

send_block-Settled_example :
    Settled one_column
      (send_block append_number one_column statement (codes "n" ∷ []) bad_rows idle).0
send_block-Settled_example =
    send_block-Settled append_number one_column statement (codes "n" ∷ []) bad_rows idle
