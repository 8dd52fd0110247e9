-- ===== src/Batch/Moves.antt =====
-- What each call on a batch does to its connection.
use php_clickhouse.Base.{
  ◌≡◌, inl, inr, refl, Bool, true, false, Bytes, List, [], ◌∷◌, Option, length, Bool-cases, ◌==◌,
}
use php_clickhouse.Errors.{Outcome, PhpException}
use php_clickhouse.Connection.{Connection}
use php_clickhouse.Insert.{InsertRow, cells, not_array, Library, Call, Wire}
use php_clickhouse.Batch.{Batch, start, append, flushed, flush_rows, flush, release, free}
use php_clickhouse.Connection.Moves.{Moves}

-- A new batch holds its connection.
pub start-holds :
    (Cell : Type 0) (conn : Connection) (table : Bytes) (columns : List Bytes)
    → let b = start {Cell = Cell} conn table columns in
      (b.released ≡ false) × (b.pool_releases ≡ [])
unfolding start
start-holds Cell conn table columns = (refl, refl)

module _ {Cell : Type 0} where
  abbrev pub BatchMoves : Batch Cell → Batch Cell → Type 0
  BatchMoves b b' = Moves b.released b.pool_releases b'.released b'.pool_releases

  pub append-Moves : (row : InsertRow Cell) (b : Batch Cell) → BatchMoves b (append row b).0
  unfolding append
  append-Moves not_array b = inl (refl, refl)
  append-Moves (cells xs) b = elim (Bool-cases (length xs == length b.names)) [
    | inl same ↦ rw same (inl (refl, refl))
    | inr other ↦ rw other (inl (refl, refl))
  ]

  pub batch_free-Moves : (b : Batch Cell) → BatchMoves b (free b) × ((free b).released ≡ true)
  unfolding free release
  batch_free-Moves b = elim (Bool-cases b.released) [
    | inl gone ↦ rw gone (inl (refl, refl), refl)
    | inr here ↦ rw here (inr (refl, refl, _, refl), refl)
  ]

module _ {Column Cell : Type 0} (append_value : Column → Cell → Outcome Column)
    (lib : Library Column) where
  flushed-Moves :
      (b : Batch Cell) (q : Wire Column × Bool) → BatchMoves b (flushed append_value lib b q).0
  unfolding flushed
  flushed-Moves b (w, true) = inl (refl, refl)
  flushed-Moves b (w, false) = inl (refl, refl)

  flush_rows-Moves :
      (rows : List (InsertRow Cell)) (b : Batch Cell) (calls : List (Call Column))
      (p : Option PhpException)
      → BatchMoves b (flush_rows append_value lib rows b calls p).0
  unfolding flush_rows
  flush_rows-Moves [] b calls p = inl (refl, refl)
  flush_rows-Moves (row ∷ rows) b calls p = flushed-Moves b _

  pub flush-Moves :
      (b : Batch Cell) (calls : List (Call Column)) (p : Option PhpException)
      → BatchMoves b (flush append_value lib b calls p).0
  unfolding flush
  flush-Moves b calls p = flush_rows-Moves b.pending b calls p
