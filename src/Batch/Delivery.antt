-- ===== src/Batch/Delivery.antt =====
-- Every row that a batch accepts is sent once, in order.
use php_clickhouse.Base.{
  ◌≡◌, ◌≢◌, ◌⊎◌, inl, inr, refl, sym, ◌∙◌, Bool, true, false, List, [], ◌∷◌, ◌++◌, append_assoc,
  append-nil, Option, none, some, arith, length, All, All-append, ◌==◌, ==_iff, Bool-cases,
}
use php_clickhouse.Errors.{Outcome, PhpException, returns}
use php_clickhouse.Insert.{
  InsertRow, cells, not_array, Library, Call, Wire, send_block, begin_insert, send_insert_block,
  end_insert, filled, name_columns,
}
use php_clickhouse.Insert.Shape.{HasWidth}
use php_clickhouse.Insert.Session.{send_block-success, send_block-failure}
use php_clickhouse.Batch.{Batch, append, flushed, flush_rows, flush}

-- What PHP code does with a batch.
pub data Op (Cell : Type 0) : Type 0 where
  appends : InsertRow Cell → Op Cell
  flushes : Op Cell

-- A batch in use, with the calls made so far, the rows that `append` accepted, and those that a
-- flush reported as sent.
pub record History (Column Cell : Type 0) : Type 0 where
  pub batch : Batch Cell
  pub calls : List (Call Column)
  pub accepted : List (InsertRow Cell)
  pub sent : List (InsertRow Cell)

module _ {Column Cell : Type 0} (append_value : Column → Cell → Outcome Column)
    (lib : Library Column) where
  abbrev pub recorded :
      InsertRow Cell → History Column Cell → Batch Cell × Option PhpException → History Column Cell
  recorded row h (b, none) = record h { batch = b; accepted = h.accepted ++ row ∷ [] }
  recorded row h (b, some e) = record h { batch = b }

  abbrev pub delivered :
      History Column Cell
      → Batch Cell × List (Call Column) × Option PhpException × Bool
      → History Column Cell
  delivered h (b, calls, p, true) = record h {
    batch = b;
    calls = calls;
    sent = h.sent ++ h.batch.pending;
  }
  delivered h (b, calls, p, false) = record h { batch = b; calls = calls }

  -- PHP code sees no exception pending when it calls a method.
  unfoldable pub step : Op Cell → History Column Cell → History Column Cell
  step (appends row) h = recorded row h (append row h.batch)
  step flushes h = delivered h (flush append_value lib h.batch h.calls none)

  unfoldable pub run : List (Op Cell) → History Column Cell → History Column Cell
  run [] h = h
  run (op ∷ ops) h = run ops (step op h)

  -- What holds of a batch in use.
  pub record Sound (h : History Column Cell) : Type 0 where
    pub all_there : h.accepted ≡ h.sent ++ h.batch.pending
    pub all_wide : All (HasWidth (length h.batch.names)) h.batch.pending

  append-Sound :
      (row : InsertRow Cell) (h : History Column Cell) → Sound h → Sound (step (appends row) h)
  unfolding step append
  append-Sound not_array h s = record { all_there = s.all_there; all_wide = s.all_wide }
  append-Sound (cells xs) h s = elim (Bool-cases (length xs == length h.batch.names)) [
    | inl same ↦
        let wide : length xs ≡ length h.batch.names = (==_iff _ _).0 same in
        rw same (record {
          all_there = rw s.all_there (append_assoc h.sent h.batch.pending (cells xs ∷ []));
          all_wide =
              All-append (HasWidth (length h.batch.names)) h.batch.pending (cells xs ∷ [])
                s.all_wide (wide, tt);
        })
    | inr other ↦ rw other (record { all_there = s.all_there; all_wide = s.all_wide })
  ]

  delivered-Sound :
      (h : History Column Cell) (q : Wire Column × Bool)
      → Sound h
      → Sound (delivered h (flushed append_value lib h.batch q))
  unfolding flushed
  delivered-Sound h (w, true) s = record {
    all_there = s.all_there ∙ sym (append-nil _);
    all_wide = tt;
  }
  delivered-Sound h (w, false) s = record { all_there = s.all_there; all_wide = s.all_wide }

  flush_rows-Sound :
      (rows : List (InsertRow Cell)) (h : History Column Cell)
      → h.batch.pending ≡ rows
      → Sound h
      → Sound (delivered h (flush_rows append_value lib rows h.batch h.calls none))
  unfolding flush_rows
  flush_rows-Sound [] h e s = record {
    all_there = ground (arith, s.all_there, append-nil (h.sent ++ h.batch.pending));
    all_wide = s.all_wide;
  }
  flush_rows-Sound (row ∷ rows) h e s = delivered-Sound h _ s

  flush-Sound : (h : History Column Cell) → Sound h → Sound (step flushes h)
  unfolding step flush
  flush-Sound h s = flush_rows-Sound h.batch.pending h refl s

  -- Any sequence of appends and flushes, those that fail included, keeps this: the rows that were
  -- accepted are those that a flush reported as sent and behind them those that are still buffered,
  -- in the order in which they were appended; and each buffered row has one cell for each column
  -- name.
  pub run-Sound : (ops : List (Op Cell)) (h : History Column Cell) → Sound h → Sound (run ops h)
  unfolding run
  run-Sound [] h s = s
  run-Sound (appends row ∷ ops) h s = run-Sound ops _ (append-Sound row h s)
  run-Sound (flushes ∷ ops) h s = run-Sound ops _ (flush-Sound h s)

  -- A flush of `rows`: three calls that send them, and nothing left; or a failure that keeps them.
  abbrev pub Flushes :
      Batch Cell
      → List (Call Column)
      → List (InsertRow Cell)
      → Batch Cell × List (Call Column) × Option PhpException × Bool
      → Type 0
  Flushes b calls rows (b', calls', p', ok) =
      ((ok ≡ true)
        × (b'.pending ≡ [])
        × ((cols : List Column) × (filled append_value lib b.statement b.names rows calls
              ≡ returns cols)
            × (calls'
                ≡ calls
                  ++ (begin_insert b.statement
                      ∷ send_insert_block (name_columns b.names cols)
                      ∷ end_insert
                      ∷ []))))
      ⊎ ((ok ≡ false) × (b'.pending ≡ b.pending) × (p' ≢ none))

  flushed-true :
      (b : Batch Cell) (q : Wire Column × Bool)
      → q.1 ≡ true
      → flushed append_value lib b q
        ≡ (record b { pending = []; broken = q.0.broken }, q.0.calls, q.0.pending, true)
  unfolding flushed
  flushed-true b (w, true) h = refl
  flushed-true b (w, false) h = cc

  flushed-false :
      (b : Batch Cell) (q : Wire Column × Bool)
      → q.1 ≡ false
      → flushed append_value lib b q
        ≡ (record b { broken = q.0.broken }, q.0.calls, q.0.pending, false)
  unfolding flushed
  flushed-false b (w, false) h = refl
  flushed-false b (w, true) h = cc

  pub flush_rows-Flushes :
      (b : Batch Cell) (calls : List (Call Column)) (p : Option PhpException) (row : InsertRow Cell)
      (rows : List (InsertRow Cell))
      → Flushes b calls (row ∷ rows) (flush_rows append_value lib (row ∷ rows) b calls p)
  unfolding flush_rows
  flush_rows-Flushes b calls p row rows =
      let w : Wire Column = record { calls = calls; broken = b.broken; pending = p } in
      let q = send_block append_value lib b.statement b.names (row ∷ rows) w in
      elim (Bool-cases q.1) [
        | inl ok ↦
            let (cols, filling, three, _) =
              send_block-success append_value lib b.statement b.names (row ∷ rows) w ok in
            rw (flushed-true b q ok) (inl (refl, refl, (cols, filling, three)))
        | inr bad ↦ rw (flushed-false b q bad) (
            inr (
              refl,
              refl,
              send_block-failure append_value lib b.statement b.names (row ∷ rows) w bad,
            ))
      ]

  -- A flush with rows buffered either succeeds or fails. If it succeeds, it has made three calls: it
  -- opened a session, sent one block that these rows fill, and closed the session; and no row is left
  -- buffered. If it fails, a PHP exception is pending and the rows are kept.
  pub flush-sends :
      (b : Batch Cell) (calls : List (Call Column)) (p : Option PhpException)
      → b.pending ≢ []
      → Flushes b calls b.pending (flush append_value lib b calls p)
  unfolding flush
  flush-sends b calls p h = pending_cases b.pending refl
    where
      pending_cases :
          (rows : List (InsertRow Cell))
          → b.pending ≡ rows
          → Flushes b calls rows (flush_rows append_value lib rows b calls p)
      pending_cases [] e = absurd (h e)
      pending_cases (row ∷ rows) e = flush_rows-Flushes b calls p row rows
