-- ===== src/Result/Lifecycle.antt =====
-- The two states of a result: it holds its connection, or it has given it back.
use php_clickhouse.Base.{
  ℕ, ◌≡◌, ◌⊎◌, inl, inr, Bool, true, false, List, [], ◌∷◌, Option, none, arith,
}
use php_clickhouse.Errors.{
  Exception, Outcome, returns, throws, PhpException, exception_poisons_connection, pending_after,
}
use php_clickhouse.Connection.{Connection, mark_broken}
use php_clickhouse.Stream.{
  Packet, Block, Stream, block, finished, fails, exhausted, Opening, begun, refused,
}
use php_clickhouse.Result.{
  Result, Row, init, release, finish, load_block, absorb, caught, prime, start, free, convert_row,
  deliver, emit, pull, next,
}

-- The result holds its connection, and has released nothing.
pub record Held {Column : Type 0} (conn : Connection) (r : Result Column) : Type 0 where
  pub not_released : r.released ≡ false
  pub not_done : r.done ≡ false
  pub none_released : r.pool_releases ≡ []
  pub same_conn : r.conn ≡ conn

-- The result released its connection once, marked as broken or not.
pub record Released {Column : Type 0} (conn : Connection) (r : Result Column) : Type 0 where
  pub dropped : Bool
  pub is_released : r.released ≡ true
  pub released_once : r.pool_releases ≡ mark_broken dropped conn ∷ []

module _ {Column Value : Type 0} (cell : Column → ℕ → Outcome Value) (conn : Connection) where
  abbrev pub Closed : Result Column → Type 0
  Closed r = Released conn r × (r.done ≡ true)

  abbrev pub State : Result Column → Type 0
  State r = Held conn r ⊎ Closed r

  absorb-Held :
      (ps : List Packet) (s : Stream Column) (r : Result Column)
      → Held conn r
      → Held conn (absorb ps s r)
  unfolding absorb
  absorb-Held ps s r h = ground arith

  load_block-Held :
      (b : Block Column) (r : Result Column) → Held conn r → Held conn (load_block b r)
  unfolding load_block
  load_block-Held b r h = ground arith

  finish-Closed : (r : Result Column) → Held conn r → Closed (finish r)
  unfolding finish release
  finish-Closed r h = (
    record { dropped = r.broken; is_released = ground arith; released_once = ground arith },
    ground arith,
  )

  caught-Closed :
      {A : Type 0} (e : Exception) (a : A) (r : Result Column) (p : Option PhpException)
      → Held conn r
      → Closed (caught e a r p).0
  unfolding caught
  caught-Closed e a r p h =
      finish-Closed (record r { broken = exception_poisons_connection e })
        (record {
          not_released = h.not_released;
          not_done = h.not_done;
          none_released = h.none_released;
          same_conn = h.same_conn;
        })

  ended-Closed :
      (ps : List Packet) (r : Result Column) → Held conn r → Closed (finish (absorb ps exhausted r))
  unfolding absorb
  ended-Closed ps r h = finish-Closed (absorb ps exhausted r) (absorb-Held ps exhausted r h)

  failed-Closed :
      {A : Type 0} (ps : List Packet) (e : Exception) (a : A) (r : Result Column)
      (p : Option PhpException)
      → Held conn r
      → Closed (caught e a (absorb ps exhausted r) p).0
  unfolding absorb
  failed-Closed ps e a r p h =
      caught-Closed e a (absorb ps exhausted r) p (absorb-Held ps exhausted r h)

  prime-State :
      (s : Stream Column) (r : Result Column) (p : Option PhpException)
      → Held conn r
      → State (prime s r p).0
  unfolding prime
  prime-State (block ps b rest) r p h =
      let h' = absorb-Held ps rest r h in
      ground
        (arith, load_block-Held b (absorb ps rest r) h', prime-State rest (absorb ps rest r) p h')
  prime-State (finished ps) r p h = inr (ended-Closed ps r h)
  prime-State (fails ps thrown e) r p h =
      inr (failed-Closed ps e false r (pending_after p thrown) h)
  prime-State exhausted r p h = inl h

  init-Held : (s : Stream Column) → Held conn (record (init conn) { stream = s })
  unfolding init
  init-Held s = ground arith

  pub start-State : (o : Opening Column) (p : Option PhpException) → State (start conn o p).0
  unfolding start init
  start-State (begun s) p = prime-State s _ p (init-Held s)
  start-State (refused thrown e) p =
      inr (caught-Closed e false (init conn) (pending_after p thrown) (init-Held exhausted))

  deliver-State :
      (o : Outcome (Row Value)) (r : Result Column) (p : Option PhpException)
      → Held conn r
      → State (deliver cell o r p).0
  unfolding deliver
  deliver-State (returns row) r p h = inl (record {
    not_released = h.not_released;
    not_done = h.not_done;
    none_released = h.none_released;
    same_conn = h.same_conn;
  })
  deliver-State (throws e) r p h = inr (caught-Closed e none r p h)

  emit-State : (r : Result Column) (p : Option PhpException) → Held conn r → State (emit cell r p).0
  unfolding emit
  emit-State r p h = deliver-State (convert_row cell r.cols r.keys r.row []) r p h

  pull-State :
      (s : Stream Column) (r : Result Column) (p : Option PhpException)
      → Held conn r
      → State (pull cell s r p).0
  unfolding pull
  pull-State (block ps b rest) r p h =
      let r' = load_block b (absorb ps rest r) in
      let h' = load_block-Held b (absorb ps rest r) (absorb-Held ps rest r h) in
      ground (arith, emit-State r' p h', pull-State rest r' p h')
  pull-State (finished ps) r p h = inr (ended-Closed ps r h)
  pull-State (fails ps thrown e) r p h = inr (failed-Closed ps e none r (pending_after p thrown) h)
  pull-State exhausted r p h = inl h

  -- A call on a result that is closed releases nothing more.
  deliver-Closed :
      (o : Outcome (Row Value)) (r : Result Column) (p : Option PhpException)
      → Closed r
      → Closed (deliver cell o r p).0
  unfolding deliver caught finish release
  deliver-Closed (returns row) r p (k, d) = (
    record { dropped = k.dropped; is_released = k.is_released; released_once = k.released_once },
    d,
  )
  deliver-Closed (throws e) r p (k, d) = (
    record { dropped = k.dropped; is_released = ground arith; released_once = ground arith },
    ground arith,
  )

  emit-Closed : (r : Result Column) (p : Option PhpException) → Closed r → Closed (emit cell r p).0
  unfolding emit
  emit-Closed r p k = deliver-Closed (convert_row cell r.cols r.keys r.row []) r p k

  pub next-State : (r : Result Column) (p : Option PhpException) → State r → State (next cell r p).0
  unfolding next
  next-State r p (inl h) = ground (arith, emit-State r p h, pull-State r.stream r p h)
  next-State r p (inr k) = ground (arith, emit-Closed r p k, k.1)

  pub free-Released : (r : Result Column) → State r → Released conn (free r)
  unfolding free release
  free-Released r (inl h) = record {
    dropped = true;
    is_released = ground arith;
    released_once = ground arith;
  }
  free-Released r (inr (k, d)) = ground (arith, k.is_released, k)
