-- ===== src/ResultObject/Rows.antt =====
-- fetchAll returns the rows of the query.
use php_clickhouse.Base.{
  ℕ, zero, suc, ◌<◌, ◌≡◌, inl, inr, ap, true, List, [], ◌∷◌, ◌++◌, append_assoc, append-nil, Option,
  some, arith, length,
}
use php_clickhouse.Errors.{Outcome, PhpException}
use php_clickhouse.Connection.{Connection}
use php_clickhouse.Stream.{Stream, begun}
use php_clickhouse.Result.{Result, Row, start, next}
use php_clickhouse.Result.Rows.{stream_read, left}
use php_clickhouse.Result.Delivery.{next-Delivers}
use php_clickhouse.Result.Prime.{start-Primes}
use php_clickhouse.ResultObject.{
  ResultObject, fetch_loop, fetch_step, fetched_from, fetch_all, create,
}

-- fetchAll on the result of a query that answers this.
abbrev pub query_all :
    {Column Value : Type 0}
    → (Column → ℕ → Outcome Value)
    → ℕ
    → Connection
    → Stream Column
    → Option PhpException
    → Option (ResultObject Column Value × List (Row Value) × Option PhpException)
query_all cell fuel conn s p =
    fetch_all cell fuel (create (some (start conn (begun s) p).0)) (start conn (begun s) p).2

module _ {Column Value : Type 0} (cell : Column → ℕ → Outcome Value) where
  abbrev Fetches :
      Result Column
      → List (Row Value)
      → Option PhpException
      → Option (Result Column × List (Row Value) × Option PhpException)
      → Type 0
  Fetches r rows p answer =
      (r' : Result Column) × (answer ≡ some (r', rows ++ (left cell r p).0, (left cell r p).1))

  fetch_loop-total :
      (fuel : ℕ) (r : Result Column) (rows : List (Row Value)) (p : Option PhpException)
      → length (left cell r p).0 < fuel
      → Fetches r rows p (fetch_loop cell fuel r rows p)
  unfolding fetch_loop fetch_step
  fetch_loop-total zero r rows p h = absurd (omega arith)
  fetch_loop-total (suc fuel) r rows p h = elim (next-Delivers cell r p) [
    | inl (done, answer) ↦ ((next cell r p).0, ground (arith, append-nil rows))
    | inr (row, first, answer, pending) ↦
        let fits : length (left cell (next cell r p).0 p).0 < fuel =
          omega (arith, ap (λ q. length q.0) first) in
        let (r', e) = fetch_loop-total fuel (next cell r p).0 (rows ++ row ∷ []) p fits in
        (r', ground (arith, append_assoc rows (row ∷ []) (left cell (next cell r p).0 p).0))
  ]

  -- fetchAll on a query whose start gave a handle returns the rows of all its blocks, in order, up to
  -- the first row with a cell that does not convert: no row is lost, repeated or made up, whatever
  -- empty blocks stand between. It ends, with any fuel above the number of these rows, and leaves
  -- pending what that cell, or else the stream's end or failure, raises.
  pub fetch_all-start :
      (conn : Connection) (s : Stream Column) (p : Option PhpException) (fuel : ℕ)
      → (start conn (begun s) p).1 ≡ true
      → length (stream_read cell s p).0 < fuel
      → (o : ResultObject Column Value) × (query_all cell fuel conn s p
          ≡ some (o, (stream_read cell s p).0, (stream_read cell s p).1))
  unfolding fetch_all fetched_from create
  fetch_all-start conn s p fuel h enough =
      let (same, all) = start-Primes cell conn s p h in
      let r = (start conn (begun s) p).0 in
      let fits : length (left cell r p).0 < fuel = omega (arith, ap (λ q. length q.0) all) in
      let (r', e) = fetch_loop-total fuel r [] p fits in
      (record (create (some r)) { result = some r' }, rw (same, e, all))
