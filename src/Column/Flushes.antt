-- ===== src/Column/Flushes.antt =====
-- What the flushes of a batch send into columns, and the rows that they hold.
use php_clickhouse.Base.{
  ◌≡◌, ◌∙◌, refl, sym, ap, subst, inl, inr, Bytes, Bool, true, false, List, [], ◌∷◌, ◌++◌,
  append_assoc, append-nil, flatten, flatten-append, map, drop, drop-length-append, drop-length,
  Option, none, length,
}
use mathlib.Core.List.{map-append}
use php_clickhouse.Base.Int.{ℤ}
use php_clickhouse.Errors.{returns, PhpException}
use php_clickhouse.Php.{Zval, Engine}
use php_clickhouse.Stream.{Packet, Block}
use php_clickhouse.Result.{Row}
use php_clickhouse.ResultObject.Blocks.{AllConvert, AllConvert-++}
use php_clickhouse.Insert.{
  InsertRow, Library, Call, begin_insert, send_insert_block, end_insert, filled, name_columns,
}
use php_clickhouse.Batch.{Batch, append, flush_rows, flush}
use php_clickhouse.Batch.Delivery.{
  Op, appends, flushes, History, recorded, delivered, step, run, Flushes, flush_rows-Flushes,
}
use php_clickhouse.Batch.Blocks.{
  sent_in, blocks_flushed, blocks_at, blocks_of, Into, recorded-sent, step-Into,
}
use php_clickhouse.Column.{ColumnType, Columns}
use php_clickhouse.Column.Stores.{Documented}
use php_clickhouse.Column.Block.{append_cell}
use php_clickhouse.Column.Table.{Sort, Holds, read_cell}
use php_clickhouse.Column.Fetched.{stored_rows, stored_rows-++, sent_block, filled-AllConvert}

module _ {Column : Type 0} (php : Engine) (show : ℤ → Bytes) (lib : Columns Column)
    (type_of : Column → ColumnType) {lives : Column → Type 0} (doc : Documented lib type_of lives)
    (wire : Library Column) (ss : List Sort) (statement : Bytes) (names : List Bytes)
    (packets : Block Column → List Packet)
    (holds : (calls : List (Call Column)) (sample : List Column)
      → wire.begins (calls ++ begin_insert statement ∷ []) ≡ returns sample
      → Holds lib type_of lives ss 0 (map wire.clone_empty sample)) where
  -- What is sent between two states of a batch is the rows of these blocks.
  abbrev pub Sends : History Column Zval → List (Block Column) → History Column Zval → Type 0
  Sends h blocks h' =
      (rowss : List (List (Row Zval))) × (AllConvert (read_cell php show lib type_of)
        (map (λ b. (packets b, b)) blocks) rowss)
      × (stored_rows php ss names h'.sent ≡ stored_rows php ss names h.sent ++ flatten rowss)

  nothing-Sends :
      (h h' : History Column Zval)
      → stored_rows php ss names h'.sent ≡ stored_rows php ss names h.sent
      → Sends h [] h'
  unfolding flatten
  nothing-Sends h h' same = ([], tt, same ∙ sym (append-nil _))

  -- A flush that succeeded has sent one block with the rows that were buffered.
  flushed-Sends :
      (h : History Column Zval) (fl : Batch Zval × List (Call Column) × Option PhpException × Bool)
      → Into (append_cell php lib type_of) wire statement names h.batch
      → Flushes (append_cell php lib type_of) wire h.batch h.calls h.batch.pending fl
      → Sends h
          (blocks_flushed (append_cell php lib type_of) wire h fl)
          (delivered (append_cell php lib type_of) wire h fl)
  unfolding blocks_flushed sent_in flatten
  flushed-Sends h (b', calls', p', true) (st, ns)
        (inl (success, none_left, (cols, filling, three))) =
      let rows = h.batch.pending in
      let new : drop (length h.calls) calls'
          ≡ begin_insert h.batch.statement
            ∷ send_insert_block (name_columns names cols)
            ∷ end_insert
            ∷ [] =
        rw (three, ns) (drop-length-append h.calls _) in
      let b = sent_block php show lib type_of names rows cols in
      let filling' : filled (append_cell php lib type_of) wire statement names rows h.calls
          ≡ returns cols =
        rw (st, ns) at filling in
      let all =
        filled-AllConvert php show lib type_of doc wire ss statement names rows h.calls cols
          (packets b) (holds h.calls) filling' in
      rw new (
        stored_rows php ss names rows ∷ [],
        all,
        stored_rows-++ php ss names h.sent rows
            ∙ ap (λ l. stored_rows php ss names h.sent ++ l) (sym (append-nil _)),
      )
  flushed-Sends h (b', calls', p', false) i (inr (failure, kept, some_pending)) =
      nothing-Sends h (delivered (append_cell php lib type_of) wire h (b', calls', p', false)) refl
  flushed-Sends h (b', calls', p', true) i (inr (failure, kept, some_pending)) = cc
  flushed-Sends h (b', calls', p', false) i (inl (success, none_left, sending)) = cc

  flush-Sends :
      (h : History Column Zval)
      → Into (append_cell php lib type_of) wire statement names h.batch
      → Sends h
          (blocks_at (append_cell php lib type_of) wire flushes h)
          (step (append_cell php lib type_of) wire flushes h)
  unfolding blocks_at step flush flush_rows blocks_flushed sent_in
  flush-Sends h i = by_pending h.batch.pending refl
    where
      by_pending :
          (rows : List (InsertRow Zval))
          → h.batch.pending ≡ rows
          → let fl = flush_rows (append_cell php lib type_of) wire rows h.batch h.calls none in
            Sends h
              (blocks_flushed (append_cell php lib type_of) wire h fl)
              (delivered (append_cell php lib type_of) wire h fl)
      by_pending [] e = rw (drop-length h.calls) (
          nothing-Sends h
            (delivered (append_cell php lib type_of) wire h (h.batch, h.calls, none, true))
            (ap (stored_rows php ss names) (rw e (append-nil h.sent))))
      by_pending (row ∷ rows) e = flushed-Sends h _ i (
          subst
            (λ rs.
              Flushes (append_cell php lib type_of) wire h.batch h.calls rs
                (flush_rows (append_cell php lib type_of) wire (row ∷ rows) h.batch h.calls none))
            (sym e)
            (flush_rows-Flushes (append_cell php lib type_of) wire h.batch h.calls none row rows))

  step-Sends :
      (op : Op Zval) (h : History Column Zval)
      → Into (append_cell php lib type_of) wire statement names h.batch
      → Sends h
          (blocks_at (append_cell php lib type_of) wire op h)
          (step (append_cell php lib type_of) wire op h)
  unfolding blocks_at step
  step-Sends (appends row) h i =
      nothing-Sends h (recorded (append_cell php lib type_of) wire row h (append row h.batch)) (
        ap (stored_rows php ss names) (
          recorded-sent (append_cell php lib type_of) wire statement names row h
            (append row h.batch)))
  step-Sends flushes h i = flush-Sends h i

  pub run-Sends :
      (ops : List (Op Zval)) (h : History Column Zval)
      → Into (append_cell php lib type_of) wire statement names h.batch
      → Sends h
          (blocks_of (append_cell php lib type_of) wire ops h)
          (run (append_cell php lib type_of) wire ops h)
  unfolding blocks_of run
  run-Sends [] h i = nothing-Sends h h refl
  run-Sends (op ∷ ops) h i =
      let h' = step (append_cell php lib type_of) wire op h in
      let (xss, a, this) = step-Sends op h i in
      let (yss, b, rest) =
        run-Sends ops h' (step-Into (append_cell php lib type_of) wire statement names op h i) in
      let bs = blocks_at (append_cell php lib type_of) wire op h in
      let with_packets : Block Column → List Packet × Block Column = λ b. (packets b, b) in
      let parts =
        map-append with_packets bs (blocks_of (append_cell php lib type_of) wire ops h') in
      (
        xss ++ yss,
        rw parts (AllConvert-++ (read_cell php show lib type_of) _ _ xss yss a b),
        rest
            ∙ ap (λ l. l ++ flatten yss) this
            ∙ append_assoc (stored_rows php ss names h.sent) (flatten xss) (flatten yss)
            ∙ ap (λ l. stored_rows php ss names h.sent ++ l) (sym (flatten-append xss yss)),
      )
