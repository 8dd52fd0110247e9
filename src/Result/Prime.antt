-- ===== src/Result/Prime.antt =====
-- What `ch_result_start` leaves to deliver.
use php_clickhouse.Base.{
  ℕ, ◌≤◌, ◌≡◌, ◌∙◌, refl, subst, sym, Bool, true, false, inl, inr, ◌⊎◌, List, [], Option, arith,
  Bool-cases, ltb,
}
use php_clickhouse.Errors.{Outcome, PhpException}
use php_clickhouse.Connection.{Connection}
use php_clickhouse.Stream.{Packet, Block, Stream, block, finished, fails, exhausted, begun}
use php_clickhouse.Result.{
  Result, Reply, start, prime, init, absorb, load_block, finish, release, caught,
}
use php_clickhouse.Result.Rows.{stream_read, unless_done, left}
use php_clickhouse.Result.Delivery.{left-end, left-load_block, stream_read-empty}

module _ {Column Value : Type 0} (cell : Column → ℕ → Outcome Value) where
  -- What a freshly primed result has to deliver.
  abbrev Primes : Stream Column → Option PhpException → Reply Column Bool → Type 0
  Primes s p (r, handle, p') = handle ≡ true → (p' ≡ p) × (left cell r p ≡ stream_read cell s p)

  ended :
      (ps : List Packet) (r : Result Column)
      → r.rows ≤ r.row
      → let r' = finish (absorb ps exhausted r) in (r'.rows ≤ r'.row) × (r'.done ≡ true)
  unfolding finish release absorb
  ended ps r h = ground arith

  nothing_left :
      (r : Result Column) (p : Option PhpException)
      → r.rows ≤ r.row
      → (r.done ≡ true) ⊎ (r.stream ≡ exhausted)
      → left cell r p ≡ ([], p)
  unfolding unless_done stream_read
  nothing_left r p h (inl d) = rw (left-end cell r p h, d) refl
  nothing_left r p h (inr x) = rw (left-end cell r p h, x) (by_done r.done)
    where
      by_done : (d : Bool) → unless_done cell d exhausted p ≡ ([], p)
      by_done true = refl
      by_done false = refl

  prime-full :
      (ps : List Packet) (b : Block Column) (rest : Stream Column) (r : Result Column)
      (p : Option PhpException)
      → ltb 0 b.row_count ≡ true
      → prime (block ps b rest) r p ≡ (load_block b (absorb ps rest r), true, p)
  unfolding prime
  prime-full ps b rest r p h = ground arith

  prime-empty :
      (ps : List Packet) (b : Block Column) (rest : Stream Column) (r : Result Column)
      (p : Option PhpException)
      → ltb 0 b.row_count ≡ false
      → prime (block ps b rest) r p ≡ prime rest (absorb ps rest r) p
  unfolding prime
  prime-empty ps b rest r p h = ground arith

  prime-Primes :
      (s : Stream Column) (r : Result Column) (p : Option PhpException)
      → r.done ≡ false
      → r.rows ≤ r.row
      → r.stream ≡ s
      → Primes s p (prime s r p)
  unfolding prime absorb finish release caught stream_read
  prime-Primes (block ps b rest) r p d h q =
      let r' = absorb ps rest r in
      let later = prime-Primes rest r' p d h refl in
      elim (Bool-cases (ltb 0 b.row_count)) [
        | inl more ↦
            subst (Primes (block ps b rest) p) (sym (prime-full ps b rest r p more))
              (λ _. (refl, left-load_block cell ps b rest r p d))
        | inr empty ↦
            subst (Primes (block ps b rest) p) (sym (prime-empty ps b rest r p empty))
              (λ e. ((later e).0, (later e).1 ∙ sym (stream_read-empty cell ps b rest p empty)))
      ]
  prime-Primes (finished ps) r p d h q = λ e. (
    refl,
    nothing_left (finish (absorb ps exhausted r)) p (ended ps r h).0 (inl (ended ps r h).1),
  )
  prime-Primes (fails ps thrown e) r p d h q = λ e. absurd (cc)
  prime-Primes exhausted r p d h q = λ e. (refl, nothing_left r p h (inr q))

  pub start-Primes :
      (conn : Connection) (s : Stream Column) (p : Option PhpException)
      → Primes s p (start conn (begun s) p)
  unfolding start init
  start-Primes conn s p = prime-Primes s _ p refl (omega arith) refl
