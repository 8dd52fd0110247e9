-- ===== src/Result/Delivery.antt =====
-- `ch_result_next` delivers the rows of the blocks one by one.
use php_clickhouse.Base.{
  ℕ, zero, suc, ◌+◌, ◌-◌, ◌≤◌, ◌<◌, ◌≡◌, ◌⊎◌, inl, inr, refl, sym, subst, Bytes, Bool, true, false,
  List, [], ◌∷◌, Option, none, some, arith, Bool-cases, ltb, ltb→lt, if◌then◌else◌,
}
use php_clickhouse.Errors.{Exception, Outcome, returns, Outcome-cases, PhpException}
use php_clickhouse.Stream.{Packet, Block, Stream, block, finished, fails, exhausted}
use php_clickhouse.Result.{
  Result, Row, Reply, load_block, absorb, caught, convert_row, deliver, emit, pull, next,
}
use php_clickhouse.Result.Rows.{
  Reading, row_before, then_read, rows_from, block_rows, stream_read, unless_done, left,
}

then_read-row_before :
    {Value : Type 0} (row : Row Value) (q : List (Row Value) × Option Exception)
    (p : Option PhpException) (later : Reading Value)
    → then_read (row_before (returns row) q) p later
      ≡ (row ∷ (then_read q p later).0, (then_read q p later).1)
unfolding then_read row_before
then_read-row_before row (rows, none) p later = refl
then_read-row_before row (rows, some e) p later = refl

pub then_read-nil :
    {Value : Type 0} (p : Option PhpException) (later : Reading Value)
    → then_read ([], none) p later ≡ later
unfolding then_read
then_read-nil p later = refl

module _ {Column Value : Type 0} (cell : Column → ℕ → Outcome Value) where
  -- One call of `ch_result_next`: the first of the rows that are there to read, or the end.
  abbrev pub Delivers :
      Reading Value → Option PhpException → Reply Column (Option (Row Value)) → Type 0
  Delivers q p (r', answer, p') =
      ((q ≡ ([], p')) × (answer ≡ none))
      ⊎ ((row : Row Value) × (q ≡ (row ∷ (left cell r' p).0, (left cell r' p).1))
          × (answer ≡ some row)
          × (p' ≡ p))

  -- The first of some rows, and the others.
  rows_from-pos :
      (cols : List Column) (keys : List Bytes) (i n : ℕ)
      → 0 < n
      → rows_from cell cols keys i n
        ≡ row_before (convert_row cell cols keys i []) (rows_from cell cols keys (i + 1) (n - 1))
  unfolding rows_from
  rows_from-pos cols keys i zero h = absurd (omega arith)
  rows_from-pos cols keys i (suc n) h =
      let next_i : suc i ≡ i + 1 = omega arith in
      let before : n ≡ suc n - 1 = omega arith in rw (← before, next_i) refl

  emit-Delivers :
      (r : Result Column) (p : Option PhpException)
      → r.row < r.rows
      → Delivers (left cell r p) p (emit cell r p)
  unfolding left emit deliver
  emit-Delivers r p h =
      let n : r.rows - r.row - 1 ≡ r.rows - (r.row + 1) = omega arith in
      let split = rows_from-pos r.cols r.keys r.row (r.rows - r.row) (omega arith) in
      elim (Outcome-cases (convert_row cell r.cols r.keys r.row [])) [
        | inl (row, e) ↦ rw (split, n, e) (inr (row, then_read-row_before row _ p _, refl, refl))
        | inr (x, e) ↦ rw (split, e) (unfold row_before then_read caught in inl (refl, refl))
      ]

  -- A block that was just loaded is what is left.
  pub left-load_block :
      (ps : List Packet) (b : Block Column) (rest : Stream Column) (r : Result Column)
      (p : Option PhpException)
      → r.done ≡ false
      → left cell (load_block b (absorb ps rest r)) p ≡ stream_read cell (block ps b rest) p
  unfolding left load_block absorb stream_read block_rows unless_done
  left-load_block ps b rest r p d =
      let all : b.row_count - 0 ≡ b.row_count = omega arith in rw (all, d) refl

  pull-block :
      (ps : List Packet) (b : Block Column) (rest : Stream Column) (r : Result Column)
      (p : Option PhpException)
      → r.done ≡ false
      → pull cell (block ps b rest) r p ≡ (
          if ltb 0 b.row_count
          then emit cell (load_block b (absorb ps rest r)) p
          else pull cell rest (load_block b (absorb ps rest r)) p)
  unfolding pull load_block absorb
  pull-block ps b rest r p d = ground arith

  pub stream_read-empty :
      (ps : List Packet) (b : Block Column) (rest : Stream Column) (p : Option PhpException)
      → ltb 0 b.row_count ≡ false
      → stream_read cell (block ps b rest) p ≡ stream_read cell rest p
  unfolding stream_read block_rows rows_from
  stream_read-empty ps b rest p h =
      let none_there : b.row_count ≡ 0 = ground arith in rw none_there (then_read-nil p _)

  loaded :
      (ps : List Packet) (b : Block Column) (rest : Stream Column) (r : Result Column)
      → r.done ≡ false
      → ((load_block b (absorb ps rest r)).done ≡ false)
        × (ltb 0 b.row_count ≡ true
            → (load_block b (absorb ps rest r)).row < (load_block b (absorb ps rest r)).rows)
  unfolding load_block absorb
  loaded ps b rest r d = (d, λ more. ltb→lt _ _ more)

  pull-Delivers :
      (s : Stream Column) (r : Result Column) (p : Option PhpException)
      → r.done ≡ false
      → Delivers (stream_read cell s p) p (pull cell s r p)
  unfolding pull
  pull-Delivers (block ps b rest) r p d =
      let r' = load_block b (absorb ps rest r) in
      let (d', more_rows) = loaded ps b rest r d in
      let later = pull-Delivers rest r' p d' in
      subst (Delivers (stream_read cell (block ps b rest) p) p) (sym (pull-block ps b rest r p d))
        (elim (Bool-cases (ltb 0 b.row_count)) [
          | inl more ↦
              rw (more, ← left-load_block ps b rest r p d) (emit-Delivers r' p (more_rows more))
          | inr empty ↦ rw (empty, stream_read-empty ps b rest p empty) later
        ])
  pull-Delivers (finished ps) r p d = unfold stream_read in inl (refl, refl)
  pull-Delivers (fails ps thrown e) r p d = unfold stream_read caught in inl (refl, refl)
  pull-Delivers exhausted r p d = unfold stream_read in inl (refl, refl)

  pub left-end :
      (r : Result Column) (p : Option PhpException)
      → r.rows ≤ r.row
      → left cell r p ≡ unless_done cell r.done r.stream p
  unfolding left rows_from
  left-end r p h = let e : r.rows - r.row ≡ 0 = omega arith in rw e (then_read-nil p _)

  next_at_end :
      (r : Result Column) (p : Option PhpException)
      → ltb r.row r.rows ≡ false
      → next cell r p ≡ (if r.done then (r, none, p) else pull cell r.stream r p)
  unfolding next
  next_at_end r p end = ground arith

  pulled :
      (r : Result Column) (p : Option PhpException)
      → Delivers
          (unless_done cell r.done r.stream p)
          p
          (if r.done then (r, none, p) else pull cell r.stream r p)
  unfolding unless_done
  pulled r p = by_done r.done refl
    where
      by_done :
          (d : Bool)
          → r.done ≡ d
          → Delivers
              (unless_done cell d r.stream p)
              p
              (if d then (r, none, p) else pull cell r.stream r p)
      by_done true e = inl (refl, refl)
      by_done false e = pull-Delivers r.stream r p e

  pub next-Delivers :
      (r : Result Column) (p : Option PhpException) → Delivers (left cell r p) p (next cell r p)
  unfolding next
  next-Delivers r p = elim (Bool-cases (ltb r.row r.rows)) [
    | inl more ↦ rw more (emit-Delivers r p (ltb→lt _ _ more))
    | inr end ↦
        subst (Delivers (left cell r p) p) (sym (next_at_end r p end))
          (rw (left-end r p (ground arith)) (pulled r p))
  ]
