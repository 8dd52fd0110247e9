-- ===== src/ResultObject/Blocks.antt =====
-- fetchAll on a query that answers some blocks, whose rows are known to convert.
use php_clickhouse.Base.{
  ◌++◌, ℕ, suc, ◌<◌, ◌≡◌, refl, inl, inr, Bytes, true, List, [], ◌∷◌, flatten, map, Option, none,
  some, length, ltb, Bool-cases,
}
use php_clickhouse.Errors.{Outcome, returns, PhpException}
use php_clickhouse.Connection.{Connection}
use php_clickhouse.Stream.{Packet, Block, Stream, block, finished}
use php_clickhouse.Result.{Result, Row, start, prime, absorb, convert_row}
use php_clickhouse.Result.Rows.{row_before, then_read, rows_from, block_rows, stream_read}
use php_clickhouse.ResultObject.{ResultObject}
use php_clickhouse.ResultObject.Rows.{query_all, fetch_all-start}

-- A query that answers these blocks, each with the packets before it, and then ends.
unfoldable pub answer_of :
    {Column : Type 0} → List (List Packet × Block Column) → List Packet → Stream Column
answer_of [] qs = finished qs
answer_of ((ps, b) ∷ bs) qs = block ps b (answer_of bs qs)

prime-answer :
    {Column : Type 0} (bs : List (List Packet × Block Column)) (qs : List Packet)
    (r : Result Column) (p : Option PhpException)
    → (prime (answer_of bs qs) r p).1 ≡ true
unfolding prime answer_of
prime-answer [] qs r p = refl
prime-answer ((ps, b) ∷ bs) qs r p = elim (Bool-cases (ltb 0 b.row_count)) [
  | inl more ↦ rw more refl
  | inr empty ↦ rw empty (prime-answer bs qs (absorb ps (answer_of bs qs) r) p)
]

module _ {Column Value : Type 0} (cell : Column → ℕ → Outcome Value) where
  -- Row `n` and those after it convert to these rows.
  abbrev pub Converts : List Column → List Bytes → ℕ → List (Row Value) → Type 0
  Converts cols keys n [] = Unit {0}
  Converts cols keys n (row ∷ rows) =
      (convert_row cell cols keys n [] ≡ returns row) × Converts cols keys (suc n) rows

  -- The rows of each block convert to these.
  abbrev pub AllConvert : List (List Packet × Block Column) → List (List (Row Value)) → Type 0
  AllConvert [] [] = Unit
  AllConvert [] (rows ∷ rowss) = ⊥
  AllConvert ((ps, b) ∷ bs) [] = ⊥
  AllConvert ((ps, b) ∷ bs) (rows ∷ rowss) =
      (length rows ≡ b.row_count)
      × Converts (map (λ c. c.1) b.columns) (map (λ c. c.0) b.columns) 0 rows
      × AllConvert bs rowss

  pub AllConvert-++ :
      (bs cs : List (List Packet × Block Column)) (xss yss : List (List (Row Value)))
      → AllConvert bs xss
      → AllConvert cs yss
      → AllConvert (bs ++ cs) (xss ++ yss)
  AllConvert-++ [] cs [] yss a b = b
  AllConvert-++ [] cs (xs ∷ xss) yss a b = absurd a
  AllConvert-++ ((ps, blk) ∷ bs) cs [] yss a b = absurd a
  AllConvert-++ ((ps, blk) ∷ bs) cs (xs ∷ xss) yss (n, this, a) b =
      (n, this, AllConvert-++ bs cs xss yss a b)

  rows_from-Converts :
      (cols : List Column) (keys : List Bytes) (n : ℕ) (rows : List (Row Value))
      → Converts cols keys n rows
      → rows_from cell cols keys n (length rows) ≡ (rows, none)
  unfolding rows_from row_before
  rows_from-Converts cols keys n [] c = refl
  rows_from-Converts cols keys n (row ∷ rows) (this, c) =
      rw (this, rows_from-Converts cols keys (suc n) rows c) refl

  stream_read-answer :
      (bs : List (List Packet × Block Column)) (rowss : List (List (Row Value))) (qs : List Packet)
      (p : Option PhpException)
      → AllConvert bs rowss
      → stream_read cell (answer_of bs qs) p ≡ (flatten rowss, p)
  unfolding stream_read answer_of flatten then_read block_rows
  stream_read-answer [] [] qs p h = refl
  stream_read-answer [] (rows ∷ rowss) qs p h = absurd h
  stream_read-answer ((ps, b) ∷ bs) [] qs p h = absurd h
  stream_read-answer ((ps, b) ∷ bs) (rows ∷ rowss) qs p (n, this, h) =
      rw
        (
          ← n,
          rows_from-Converts (map (λ c. c.1) b.columns) (map (λ c. c.0) b.columns) 0 rows this,
          stream_read-answer bs rowss qs p h,
        )
        refl

  -- fetchAll on a query that answers blocks returns their rows, as they convert, in order and as many as there are; it
  -- ends with any fuel above their number.
  pub fetch_all-answer :
      (conn : Connection) (bs : List (List Packet × Block Column)) (rowss : List (List (Row Value)))
      (qs : List Packet) (p : Option PhpException) (fuel : ℕ)
      → AllConvert bs rowss
      → length (flatten rowss) < fuel
      → (o : ResultObject Column Value) × (query_all cell fuel conn (answer_of bs qs) p
          ≡ some (o, flatten rowss, p))
  unfolding start
  fetch_all-answer conn bs rowss qs p fuel h enough =
      let read = stream_read-answer bs rowss qs p h in
      rw read at (
        fetch_all-start cell conn (answer_of bs qs) p fuel (prime-answer bs qs _ p)
          (rw read enough))
