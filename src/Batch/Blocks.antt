-- ===== src/Batch/Blocks.antt =====
-- The blocks that the flushes of a batch send, and the table that they insert into.
use php_clickhouse.Base.{
  ◌≡◌, refl, sym, subst, inl, inr, Bytes, Bool, true, false, List, [], ◌∷◌, ◌++◌, map, drop, Option,
  none, some, length, Bool-cases, ◌==◌,
}
use php_clickhouse.Errors.{Outcome, PhpException}
use php_clickhouse.Stream.{Block}
use php_clickhouse.Insert.{
  InsertRow, cells, not_array, Library, Call, Wire, begin_insert, send_insert_block, end_insert,
  send_block,
}
use php_clickhouse.Batch.{Batch, append, flushed, flush_rows, flush}
use php_clickhouse.Batch.Delivery.{Op, appends, flushes, History, recorded, delivered, step}

-- The columns of the blocks that some calls send.
unfoldable pub sent_in : {Column : Type 0} → List (Call Column) → List (List (Bytes × Column))
sent_in [] = []
sent_in (send_insert_block columns ∷ cs) = columns ∷ sent_in cs
sent_in (begin_insert statement ∷ cs) = sent_in cs
sent_in (end_insert ∷ cs) = sent_in cs

module _ {Column Cell : Type 0} (append_value : Column → Cell → Outcome Column)
    (lib : Library Column) where
  -- A flush of `rows` after `calls`, with its answer.
  abbrev pub Flushed : Type 0
  Flushed = Batch Cell × List (Call Column) × Option PhpException × Bool

  -- The blocks of a flush that reported its rows as sent.
  unfoldable pub blocks_flushed : History Column Cell → Flushed → List (Block Column)
  blocks_flushed h (b, calls, p, true) =
      map (λ columns. record { row_count = length h.batch.pending; columns = columns })
        (sent_in (drop (length h.calls) calls))
  blocks_flushed h (b, calls, p, false) = []

  unfoldable pub blocks_at : Op Cell → History Column Cell → List (Block Column)
  blocks_at (appends row) h = []
  blocks_at flushes h = blocks_flushed h (flush append_value lib h.batch h.calls none)

  -- The blocks of all flushes that reported their rows as sent, in order.
  unfoldable pub blocks_of : List (Op Cell) → History Column Cell → List (Block Column)
  blocks_of [] h = []
  blocks_of (op ∷ ops) h = blocks_at op h ++ blocks_of ops (step append_value lib op h)

module _ {Column Cell : Type 0} (append_value : Column → Cell → Outcome Column)
    (lib : Library Column) (statement : Bytes) (names : List Bytes) where
  -- The batch inserts into this table.
  abbrev pub Into : Batch Cell → Type 0
  Into b = (b.statement ≡ statement) × (b.names ≡ names)

  append-Into : (row : InsertRow Cell) (b : Batch Cell) → Into b → Into (append row b).0
  unfolding append
  append-Into not_array b h = h
  append-Into (cells xs) b h = elim (Bool-cases (length xs == length b.names)) [
    | inl same ↦ rw same h
    | inr other ↦ rw other h
  ]

  recorded-batch :
      (row : InsertRow Cell) (h : History Column Cell) (q : Batch Cell × Option PhpException)
      → (recorded append_value lib row h q).batch ≡ q.0
  recorded-batch row h (b, none) = refl
  recorded-batch row h (b, some e) = refl

  pub recorded-sent :
      (row : InsertRow Cell) (h : History Column Cell) (q : Batch Cell × Option PhpException)
      → (recorded append_value lib row h q).sent ≡ h.sent
  recorded-sent row h (b, none) = refl
  recorded-sent row h (b, some e) = refl

  flushed-Into :
      (h : History Column Cell) (fl : Batch Cell × List (Call Column) × Option PhpException × Bool)
      → Into fl.0
      → Into (delivered append_value lib h fl).batch
  flushed-Into h (b, calls, p, true) i = i
  flushed-Into h (b, calls, p, false) i = i

  flush_rows-Into :
      (rows : List (InsertRow Cell)) (b : Batch Cell) (calls : List (Call Column))
      → Into b
      → Into (flush_rows append_value lib rows b calls none).0
  unfolding flush_rows flushed
  flush_rows-Into [] b calls i = i
  flush_rows-Into (row ∷ rows) b calls i =
      after
        (send_block append_value lib b.statement b.names (row ∷ rows)
          (record { calls = calls; broken = b.broken; pending = none }))
        i
    where
      after : (q : Wire Column × Bool) → Into b → Into (flushed append_value lib b q).0
      after (w, true) i = i
      after (w, false) i = i

  pub step-Into :
      (op : Op Cell) (h : History Column Cell)
      → Into h.batch
      → Into (step append_value lib op h).batch
  unfolding step flush
  step-Into (appends row) h i =
      subst Into (sym (recorded-batch row h (append row h.batch))) (append-Into row h.batch i)
  step-Into flushes h i =
      flushed-Into h (flush_rows append_value lib h.batch.pending h.batch h.calls none)
        (flush_rows-Into h.batch.pending h.batch h.calls i)
