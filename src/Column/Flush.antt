-- ===== src/Column/Flush.antt =====
-- `ch_batch_flush` with the cache of Map templates that each `ch_send_block` shares among its cells, and what PHP code
-- does with such a batch.
use php_clickhouse.Base.{◌≡◌, refl, ap, Bytes, Bool, true, List, [], ◌∷◌, ◌++◌, map, Option, none}
use php_clickhouse.Errors.{returns, PhpException}
use php_clickhouse.Php.{Zval, Engine}
use php_clickhouse.Stream.{Block}
use php_clickhouse.Insert.{InsertRow, Library, Call, begin_insert}
use php_clickhouse.Batch.{Batch, append, flushed, flush_rows, flush}
use php_clickhouse.Batch.Delivery.{Op, appends, flushes, History, recorded, delivered, step, run}
use php_clickhouse.Batch.Blocks.{blocks_flushed, blocks_at, blocks_of, Into, step-Into}
use php_clickhouse.Column.{ColumnType, Columns}
use php_clickhouse.Column.Types.{KeepsTypes}
use php_clickhouse.Column.Block.{AllLasting, append_cell}
use php_clickhouse.Column.Send.{send_block_cached, send_block_cached-send_block}

module _ {Column : Type 0} (php : Engine) (lib : Columns Column) (type_of : Column → ColumnType)
    (wire : Library Column) where
  unfoldable pub flush_rows_cached :
      List (InsertRow Zval)
      → Batch Zval
      → List (Call Column)
      → Option PhpException
      → Batch Zval × List (Call Column) × Option PhpException × Bool
  flush_rows_cached [] b calls p = (b, calls, p, true)
  flush_rows_cached (row ∷ rows) b calls p = flushed (append_cell php lib type_of) wire b (
      send_block_cached php lib type_of wire b.statement b.names (row ∷ rows)
        (record { calls = calls; broken = b.broken; pending = p }))

  unfoldable pub flush_cached :
      Batch Zval
      → List (Call Column)
      → Option PhpException
      → Batch Zval × List (Call Column) × Option PhpException × Bool
  flush_cached b calls p = flush_rows_cached b.pending b calls p

  unfoldable pub step_cached : Op Zval → History Column Zval → History Column Zval
  step_cached (appends row) h =
      recorded (append_cell php lib type_of) wire row h (append row h.batch)
  step_cached flushes h =
      delivered (append_cell php lib type_of) wire h (flush_cached h.batch h.calls none)

  unfoldable pub run_cached : List (Op Zval) → History Column Zval → History Column Zval
  run_cached [] h = h
  run_cached (op ∷ ops) h = run_cached ops (step_cached op h)

  unfoldable pub blocks_at_cached : Op Zval → History Column Zval → List (Block Column)
  blocks_at_cached (appends row) h = []
  blocks_at_cached flushes h =
      blocks_flushed (append_cell php lib type_of) wire h (flush_cached h.batch h.calls none)

  -- The blocks of all flushes that reported their rows as sent, in order.
  unfoldable pub blocks_of_cached : List (Op Zval) → History Column Zval → List (Block Column)
  blocks_of_cached [] h = []
  blocks_of_cached (op ∷ ops) h = blocks_at_cached op h ++ blocks_of_cached ops (step_cached op h)

  module _ {lives : Column → Type 0} (laws : KeepsTypes lib type_of lives)
      (same : wire.clone_empty ≡ lib.clone_empty) (statement : Bytes) (names : List Bytes)
      (lasting : (calls : List (Call Column)) (sample : List Column)
        → wire.begins (calls ++ begin_insert statement ∷ []) ≡ returns sample
        → AllLasting lib type_of lives (map wire.clone_empty sample)) where
    flush_rows_cached-eq :
        (rows : List (InsertRow Zval)) (b : Batch Zval) (calls : List (Call Column))
        (p : Option PhpException)
        → Into (append_cell php lib type_of) wire statement names b
        → flush_rows_cached rows b calls p
          ≡ flush_rows (append_cell php lib type_of) wire rows b calls p
    unfolding flush_rows_cached flush_rows
    flush_rows_cached-eq [] b calls p i = refl
    flush_rows_cached-eq (row ∷ rows) b calls p i =
        ap (flushed (append_cell php lib type_of) wire b) (
          send_block_cached-send_block php lib type_of wire laws same b.statement b.names
            (row ∷ rows) _ (λ sample answer. lasting calls sample (rw i.0 at answer)))

    step_cached-eq :
        (op : Op Zval) (h : History Column Zval)
        → Into (append_cell php lib type_of) wire statement names h.batch
        → (step_cached op h ≡ step (append_cell php lib type_of) wire op h)
          × (blocks_at_cached op h ≡ blocks_at (append_cell php lib type_of) wire op h)
    unfolding step_cached step blocks_at_cached blocks_at flush_cached flush
    step_cached-eq (appends row) h i = (refl, refl)
    step_cached-eq flushes h i =
        let e = flush_rows_cached-eq h.batch.pending h.batch h.calls none i in
        (
          ap (delivered (append_cell php lib type_of) wire h) e,
          ap (blocks_flushed (append_cell php lib type_of) wire h) e,
        )

    pub run_cached-eq :
        (ops : List (Op Zval)) (h : History Column Zval)
        → Into (append_cell php lib type_of) wire statement names h.batch
        → (run_cached ops h ≡ run (append_cell php lib type_of) wire ops h)
          × (blocks_of_cached ops h ≡ blocks_of (append_cell php lib type_of) wire ops h)
    unfolding run_cached run blocks_of_cached blocks_of
    run_cached-eq [] h i = (refl, refl)
    run_cached-eq (op ∷ ops) h i =
        let (e, b) = step_cached-eq op h i in
        let next = step-Into (append_cell php lib type_of) wire statement names op h i in
        let (es, bs) = run_cached-eq ops (step (append_cell php lib type_of) wire op h) next in
        (rw e es, rw (e, b, bs) refl)
