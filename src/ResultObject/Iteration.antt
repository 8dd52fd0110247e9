-- ===== src/ResultObject/Iteration.antt =====
-- `foreach` over a result: the engine calls rewind once, and then valid, current, key and next in turn.
use php_clickhouse.Base.{
  ℕ, zero, suc, ◌+◌, ◌<◌, ◌≡◌, inl, inr, refl, ap, true, false, List, [], ◌∷◌, Option, none, some,
  arith, length, if◌then◌else◌,
}
use php_clickhouse.Base.Int.{ℤ, pos, ◌+ℤ◌}
use php_clickhouse.Errors.{Outcome, PhpException}
use php_clickhouse.Result.{Result, Row, next}
use php_clickhouse.Result.Rows.{left}
use php_clickhouse.Result.Delivery.{next-Delivers}
use php_clickhouse.ResultObject.{
  ResultObject, next_row, advance, advanced, rewind, create, current_row,
}

-- What the loop has seen, and how it ended; `none` where the fuel ran out.
abbrev pub Seen : Type 0 → Type 0
Seen Value = Option (List (ℤ × Option (Row Value)) × Option PhpException)

abbrev pub see : {Value : Type 0} → ℤ → Option (Row Value) → Seen Value → Seen Value
see key row none = none
see key row (some (rest, p)) = some ((key, row) ∷ rest, p)

-- Rows under the keys n, n + 1, ….
abbrev pub numbered : {Value : Type 0} → ℕ → List (Row Value) → List (ℤ × Option (Row Value))
numbered n [] = []
numbered n (row ∷ rows) = (pos n, some row) ∷ numbered (n + 1) rows

module _ {Column Value : Type 0} (cell : Column → ℕ → Outcome Value) where
  foreach_loop : ℕ → ResultObject Column Value → Option PhpException → Seen Value
  foreach_loop zero o p = none
  foreach_loop (suc fuel) o p =
      let rest =
        see o.pos (current_row o) (foreach_loop fuel (advance cell o p).0 (advance cell o p).1) in
      if o.valid then rest else some ([], p)

  pub foreach : ℕ → ResultObject Column Value → Option PhpException → Seen Value
  foreach fuel o p = foreach_loop fuel (rewind cell o p).0 (rewind cell o p).1

module _ {Column Value : Type 0} (cell : Column → ℕ → Outcome Value) where
  advance_at :
      (o : ResultObject Column Value) (r : Result Column) (p : Option PhpException)
      → o.result ≡ some r
      → advance cell o p
        ≡ (advanced o (some (next cell r p).0) (next cell r p).1, (next cell r p).2)
  unfolding advance next_row
  advance_at o r p e = rw (e, next_row)

  advance_end :
      (o : ResultObject Column Value) (r : Result Column) (p : Option PhpException)
      → o.result ≡ some r
      → (next cell r p).1 ≡ none
      → advance cell o p ≡ (
        record o { result = some (next cell r p).0; current = none; valid = false },
        (next cell r p).2,
      )
  unfolding advanced
  advance_end o r p e answer = rw (advance_at o r p e, answer)

  advance_row :
      (o : ResultObject Column Value) (r : Result Column) (p : Option PhpException)
      (row : Row Value)
      → o.result ≡ some r
      → (next cell r p).1 ≡ some row
      → (next cell r p).2 ≡ p
      → advance cell o p ≡ (
        record o {
          result = some (next cell r p).0;
          current = some row;
          valid = true;
          pos = o.pos +ℤ pos 1;
        },
        p,
      )
  unfolding advanced
  advance_row o r p row e answer pending = rw (advance_at o r p e, answer, pending)

  -- The lookahead stands before the rows that are left.
  foreach_loop-rows :
      (fuel n : ℕ) (o : ResultObject Column Value) (r : Result Column) (p : Option PhpException)
      → o.result ≡ some r
      → o.pos +ℤ pos 1 ≡ pos n
      → length (left cell r p).0 < fuel
      → foreach_loop cell fuel (advance cell o p).0 (advance cell o p).1
        ≡ some (numbered n (left cell r p).0, (left cell r p).1)
  unfolding foreach_loop current_row
  foreach_loop-rows zero n o r p e k h = absurd (omega arith)
  foreach_loop-rows (suc fuel) n o r p e k h = elim (next-Delivers cell r p) [
    | inl (done, answer) ↦ rw (advance_end o r p e answer, done) refl
    | inr (row, first, answer, pending) ↦
        let r' = (next cell r p).0 in
        let o' : ResultObject Column Value = record o {
          result = some r';
          current = some row;
          valid = true;
          pos = o.pos +ℤ pos 1;
        } in
        let fits : length (left cell r' p).0 < fuel = omega (arith, ap (λ q. length q.0) first) in
        let k' : o.pos +ℤ pos 1 +ℤ pos 1 ≡ pos (n + 1) = rw k (ground arith) in
        let rest = foreach_loop-rows fuel (n + 1) o' r' p refl k' fits in
        rw (advance_row o r p row e answer pending, rest, first, k)
  ]

  -- `foreach` shows the rows that a result has left once each, in order, under the keys 0, 1, 2, …,
  -- up to the first row with a cell that does not convert; it ends, with any fuel above the number of
  -- these rows, and leaves pending what that cell, or else the end of the stream, raises.
  pub foreach-rows :
      (r : Result Column) (p : Option PhpException) (fuel : ℕ)
      → length (left cell r p).0 < fuel
      → foreach cell fuel (create (some r)) p
        ≡ some (numbered 0 (left cell r p).0, (left cell r p).1)
  unfolding foreach rewind create
  foreach-rows r p fuel h = foreach_loop-rows fuel 0 _ r p refl refl h
