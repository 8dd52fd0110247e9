-- ===== src/Result/Moves.antt =====
-- What each call on a result does to its connection.
use php_clickhouse.Base.{ℕ, ◌≡◌, inl, inr, refl, true, false, [], Option, none, arith, Bool-cases}
use php_clickhouse.Errors.{Exception, Outcome, Outcome-cases, PhpException, pending_after}
use php_clickhouse.Connection.{Connection}
use php_clickhouse.Stream.{Stream, block, finished, fails, exhausted, Opening, begun, refused}
use php_clickhouse.Result.{
  Result, init, release, finish, load_block, absorb, caught, prime, start, free, convert_row,
  deliver, emit, pull, next,
}
use php_clickhouse.Connection.Moves.{Moves}

module _ {Column : Type 0} where
  abbrev pub ResultMoves : Result Column → Result Column → Type 0
  ResultMoves r r' = Moves r.released r.pool_releases r'.released r'.pool_releases

  release-Moves : (r : Result Column) → ResultMoves r (release r)
  unfolding release
  release-Moves r = elim (Bool-cases r.released) [
    | inl gone ↦ rw gone (inl (refl, refl))
    | inr here ↦ rw here (inr (refl, refl, _, refl))
  ]

  finish-Moves : (r : Result Column) → ResultMoves r (finish r)
  unfolding finish
  finish-Moves r = elim (Bool-cases r.done) [
    | inl d ↦ rw d (release-Moves (record r { done = true }))
    | inr d ↦ rw d (release-Moves (record r { done = true }))
  ]

  caught-Moves :
      {A : Type 0} (e : Exception) (a : A) (r : Result Column) (p : Option PhpException)
      → ResultMoves r (caught e a r p).0
  unfolding caught
  caught-Moves e a r p = finish-Moves _

  prime-Moves :
      (s : Stream Column) (r : Result Column) (p : Option PhpException)
      → ResultMoves r (prime s r p).0
  unfolding prime absorb load_block
  prime-Moves (block ps b rest) r p = ground (arith, prime-Moves rest (absorb ps rest r) p)
  prime-Moves (finished ps) r p = finish-Moves (absorb ps exhausted r)
  prime-Moves (fails ps thrown e) r p =
      caught-Moves e false (absorb ps exhausted r) (pending_after p thrown)
  prime-Moves exhausted r p = inl (refl, refl)

  pub start-Moves :
      (conn : Connection) (o : Opening Column) (p : Option PhpException)
      → let r = (start conn o p).0 in Moves false [] r.released r.pool_releases
  unfolding start init
  start-Moves conn (begun s) p = prime-Moves s (record (init conn) { stream = s }) p
  start-Moves conn (refused thrown e) p = caught-Moves e false (init conn) (pending_after p thrown)

  -- A result that is freed has given its connection back.
  pub free-Moves : (r : Result Column) → ResultMoves r (free r) × ((free r).released ≡ true)
  unfolding free release
  free-Moves r = elim (Bool-cases r.released) [
    | inl gone ↦ rw gone (inl (refl, refl), refl)
    | inr here ↦ elim (Bool-cases r.done) [
      | inl d ↦ rw (here, d) (inr (refl, refl, _, refl), refl)
      | inr d ↦ rw (here, d) (inr (refl, refl, _, refl), refl)
    ]
  ]

module _ {Column Value : Type 0} (cell : Column → ℕ → Outcome Value) where
  emit-Moves : (r : Result Column) (p : Option PhpException) → ResultMoves r (emit cell r p).0
  unfolding emit deliver
  emit-Moves r p = elim (Outcome-cases (convert_row cell r.cols r.keys r.row [])) [
    | inl (v, eq) ↦ rw eq (inl (refl, refl))
    | inr (e, eq) ↦ rw eq (caught-Moves e none r p)
  ]

  pull-Moves :
      (s : Stream Column) (r : Result Column) (p : Option PhpException)
      → ResultMoves r (pull cell s r p).0
  unfolding pull absorb load_block
  pull-Moves (block ps b rest) r p =
      let r' = load_block b (absorb ps rest r) in
      ground (arith, emit-Moves r' p, pull-Moves rest r' p)
  pull-Moves (finished ps) r p = finish-Moves (absorb ps exhausted r)
  pull-Moves (fails ps thrown e) r p =
      caught-Moves e none (absorb ps exhausted r) (pending_after p thrown)
  pull-Moves exhausted r p = inl (refl, refl)

  pub next-Moves : (r : Result Column) (p : Option PhpException) → ResultMoves r (next cell r p).0
  unfolding next
  next-Moves r p = ground (arith, emit-Moves r p, pull-Moves r.stream r p)
