-- ===== src/Result/Release.antt =====
-- How a result gives its connection back to the pool.
use php_clickhouse.Base.{ℕ, ◌≡◌, inl, inr, refl, true, false, [], ◌∷◌, Option, arith, length}
use php_clickhouse.Errors.{Outcome, returns, PhpException}
use php_clickhouse.Connection.{Connection, before_release, mark_broken}
use php_clickhouse.Stream.{Stream, block, finished, fails, exhausted, Opening, begun, refused}
use php_clickhouse.Result.{Result, start, prime, caught, free, release, finish, absorb, next}
use php_clickhouse.Result.Lifecycle.{State, start-State, next-State, free-Released}

-- A result after any number of calls of `ch_result_next`, whatever is pending at each.
pub data Reached {Column Value : Type 0} (cell : Column → ℕ → Outcome Value) (first : Result Column)
    : Result Column → Type 0 where
  started : Reached cell first first
  called :
      {before : Result Column} (pending : Option PhpException)
      → Reached cell first before
      → Reached cell first (next cell before pending).0

module _ {Column Value : Type 0} (cell : Column → ℕ → Outcome Value) (conn : Connection) where
  pub Reached-State :
      (o : Opening Column) (p : Option PhpException) (r : Result Column)
      → Reached cell (start conn o p).0 r
      → State cell conn r
  Reached-State o p _ started = start-State cell conn o p
  Reached-State o p _ (called {before} pending h) =
      next-State cell conn before pending (Reached-State o p before h)

prime_refused :
    {Column : Type 0} (s : Stream Column) (r : Result Column) (p : Option PhpException)
    → (prime s r p).1 ≡ false
    → (prime s r p).0.released ≡ true
unfolding prime caught finish release
prime_refused (block ps b rest) r p h = ground (arith, prime_refused rest (absorb ps rest r) p)
prime_refused (finished ps) r p h = cc
prime_refused (fails ps thrown e) r p h = ground arith
prime_refused exhausted r p h = cc

pub start_refused :
    {Column : Type 0} (conn : Connection) (o : Opening Column) (p : Option PhpException)
    → (start conn o p).1 ≡ false
    → (start conn o p).0.released ≡ true
unfolding start caught finish release
start_refused conn (begun s) p h = prime_refused s _ p h
start_refused conn (refused thrown e) p h = ground arith

-- Stands for the conversion of cells where none is made.
abbrev no_cell : {Column : Type 0} → Column → ℕ → Outcome (Unit {0})
no_cell c i = returns tt

-- A query whose start gives no handle has given its connection back, once.
pub refused_releases :
    {Column : Type 0} (conn : Connection) (o : Opening Column) (p : Option PhpException)
    → (start conn o p).1 ≡ false
    → length (start conn o p).0.pool_releases ≡ 1
refused_releases conn o p h = elim (start-State no_cell conn o p) [
  | inl held ↦ absurd (cc (held.not_released, start_refused conn o p h))
  | inr (k, d) ↦ rw k.released_once
]

-- A result that is freed after any calls has given its connection back to the pool exactly once.
pub released_once :
    {Column Value : Type 0} (cell : Column → ℕ → Outcome Value) (conn : Connection)
    (o : Opening Column) (p : Option PhpException) (r : Result Column)
    → Reached cell (start conn o p).0 r
    → length (free r).pool_releases ≡ 1
released_once cell conn o p r h =
    let k = free-Released cell conn r (Reached-State cell conn o p r h) in rw k.released_once

-- A result that is freed before its end, after any calls, gives its connection back in a state in
-- which the pool is told to destroy it.
pub abandoned_is_dropped :
    {Column Value : Type 0} (cell : Column → ℕ → Outcome Value) (conn : Connection)
    (o : Opening Column) (p : Option PhpException) (r : Result Column)
    → Reached cell (start conn o p).0 r
    → r.done ≡ false
    → (c : Connection) × ((free r).pool_releases ≡ c ∷ []) × (before_release c ≡ false)
unfolding before_release mark_broken free release
abandoned_is_dropped cell conn o p r h d = elim (Reached-State cell conn o p r h) [
  | inl held ↦ (record { broken = true }, ground arith, refl)
  | inr (k, e) ↦ absurd (cc)
]
