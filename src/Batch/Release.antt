-- ===== src/Batch/Release.antt =====
-- How a batch gives its connection back, and in which state.
use php_clickhouse.Base.{
  ◌≡◌, ◌⊎◌, inl, inr, refl, Bytes, Bool, true, false, List, [], ◌∷◌, ◌++◌, none, arith, length,
  ◌==◌, Bool-cases,
}
use php_clickhouse.Errors.{Outcome, returns}
use php_clickhouse.Connection.{Connection, mark_broken, before_release}
use php_clickhouse.Insert.{InsertRow, cells, not_array, Library, Call, Wire, end_insert}
use php_clickhouse.Insert.Session.{send_block-Settled}
use php_clickhouse.Batch.{start, append, flushed, flush_rows, flush, release, free}
use php_clickhouse.Batch.Delivery.{Op, appends, flushes, History, delivered, step, run}

module _ {Column Cell : Type 0} (append_value : Column → Cell → Outcome Column)
    (lib : Library Column) (conn : Connection) where
  -- No insert session is open after these calls: there were none, or the last one closed it and the
  -- library took it.
  abbrev pub Outside : List (Call Column) → Type 0
  Outside calls =
      (calls ≡ [])
      ⊎ ((cs : List (Call Column)) × (calls ≡ cs ++ end_insert ∷ [])
          × (lib.answers (cs ++ end_insert ∷ []) ≡ returns tt))

  -- A batch in use holds its connection, has released nothing, and is outside a session or broken.
  pub record InUse (h : History Column Cell) : Type 0 where
    pub not_released : h.batch.released ≡ false
    pub none_released : h.batch.pool_releases ≡ []
    pub same_conn : h.batch.conn ≡ conn
    pub outside : (h.batch.broken ≡ true) ⊎ Outside h.calls

  append-InUse :
      (row : InsertRow Cell) (h : History Column Cell)
      → InUse h
      → InUse (step append_value lib (appends row) h)
  unfolding step append
  append-InUse not_array h k = record {
    not_released = k.not_released;
    none_released = k.none_released;
    same_conn = k.same_conn;
    outside = k.outside;
  }
  append-InUse (cells xs) h k = elim (Bool-cases (length xs == length h.batch.names)) [
    | inl same ↦ rw same (record {
      not_released = k.not_released;
      none_released = k.none_released;
      same_conn = k.same_conn;
      outside = k.outside;
    })
    | inr other ↦ rw other (record {
      not_released = k.not_released;
      none_released = k.none_released;
      same_conn = k.same_conn;
      outside = k.outside;
    })
  ]

  delivered-InUse :
      (h : History Column Cell) (q : Wire Column × Bool)
      → InUse h
      → ((q.0.broken ≡ true) ⊎ Outside q.0.calls)
      → InUse (delivered append_value lib h (flushed append_value lib h.batch q))
  unfolding flushed
  delivered-InUse h (w, true) k o = record {
    not_released = k.not_released;
    none_released = k.none_released;
    same_conn = k.same_conn;
    outside = o;
  }
  delivered-InUse h (w, false) k o = record {
    not_released = k.not_released;
    none_released = k.none_released;
    same_conn = k.same_conn;
    outside = o;
  }

  flush_rows-InUse :
      (rows : List (InsertRow Cell)) (h : History Column Cell)
      → InUse h
      → InUse (delivered append_value lib h (flush_rows append_value lib rows h.batch h.calls none))
  unfolding flush_rows
  flush_rows-InUse [] h k = record {
    not_released = k.not_released;
    none_released = k.none_released;
    same_conn = k.same_conn;
    outside = k.outside;
  }
  flush_rows-InUse (row ∷ rows) h k =
      delivered-InUse h _ k
        (elim (send_block-Settled append_value lib h.batch.statement h.batch.names (row ∷ rows)
          (record { calls = h.calls; broken = h.batch.broken; pending = none })) [
            | inl bad ↦ inl bad
            | inr closed ↦ inr (inr closed)
          ])

  pub run-InUse :
      (ops : List (Op Cell)) (h : History Column Cell)
      → InUse h
      → InUse (run append_value lib ops h)
  unfolding run step flush
  run-InUse [] h k = k
  run-InUse (appends row ∷ ops) h k = run-InUse ops _ (append-InUse row h k)
  run-InUse (flushes ∷ ops) h k = run-InUse ops _ (flush_rows-InUse h.batch.pending h k)

  -- A batch on a connection, before anything is done with it.
  abbrev pub opened : Bytes → List Bytes → History Column Cell
  opened table columns = record {
    batch = start conn table columns;
    calls = [];
    accepted = [];
    sent = [];
  }

  opened-InUse : (table : Bytes) (columns : List Bytes) → InUse (opened table columns)
  unfolding start
  opened-InUse table columns = record {
    not_released = refl;
    none_released = refl;
    same_conn = refl;
    outside = inr (inl refl);
  }

  -- After any appends and flushes, those that fail included, freeing a batch gives its connection back
  -- to the pool exactly once.
  pub freed_once :
      (table : Bytes) (columns : List Bytes) (ops : List (Op Cell))
      → length (free (run append_value lib ops (opened table columns)).batch).pool_releases ≡ 1
  unfolding free release
  freed_once table columns ops =
      let k = run-InUse ops (opened table columns) (opened-InUse table columns) in
      ground (arith, k.none_released, k.not_released)

  -- If the pool may keep the connection that a freed batch gives back, no insert session is open on it:
  -- the batch has made no call, or its last call closed a session and the library took it. So it is
  -- after any appends and flushes, those that fail included.
  pub reused-Outside :
      (table : Bytes) (columns : List Bytes) (ops : List (Op Cell)) (c : Connection)
      → (free (run append_value lib ops (opened table columns)).batch).pool_releases ≡ c ∷ []
      → before_release c ≡ true
      → Outside (run append_value lib ops (opened table columns)).calls
  unfolding free release mark_broken before_release
  reused-Outside table columns ops c e b =
      let k = run-InUse ops (opened table columns) (opened-InUse table columns) in
      ground (arith, k.none_released, k.not_released, k.outside)
