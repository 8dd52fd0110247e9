-- ===== src/Transport/Reading.antt =====
-- What the read loop gives back.
use php_clickhouse.Base.{
  ℕ, ◌≡◌, refl, ap, Bytes, true, false, List, [], ◌∷◌, ◌++◌, Option, none, some, All,
}
use php_clickhouse.Errors.{Outcome, returns, throws, is_kind, exception_poisons_connection}
use php_clickhouse.Transport.{
  Received, bytes, closed, interrupted, would_block, recv_error, do_read,
}

-- The answers upon which the loop calls recv again.
pub Retries : Received → Type 0
Retries interrupted = Unit {0}
Retries (would_block ready) = ready ≡ true
Retries _ = ⊥

-- The answers upon which it throws.
pub Fails : Received → Type 0
Fails closed = Unit {0}
Fails (would_block ready) = ready ≡ false
Fails recv_error = Unit {0}
Fails _ = ⊥

-- How a read comes to an end, if it does.
pub Reads : List Received → Option (Outcome (Bytes × List Received)) → Type 0
Reads answers none = All Retries answers
Reads answers (some (returns (b, rest))) =
    (skipped : List Received) × (c : ℕ) × (cs : Bytes) × All Retries skipped
    × (b ≡ c ∷ cs)
    × (answers ≡ skipped ++ bytes c cs ∷ rest)
Reads answers (some (throws e)) =
    (skipped : List Received) × (last : Received) × (rest : List Received) × All Retries skipped
    × Fails last
    × (exception_poisons_connection e ≡ true)
    × (answers ≡ skipped ++ last ∷ rest)

Reads-on :
    (answer : Received) (answers : List Received) (o : Option (Outcome (Bytes × List Received)))
    → Retries answer
    → Reads answers o
    → Reads (answer ∷ answers) o
unfolding Reads
Reads-on answer answers none h all = (h, all)
Reads-on answer answers (some (returns (b, rest))) h (skipped, c, cs, all, e, there) =
    (answer ∷ skipped, c, cs, (h, all), e, ap (λ l. answer ∷ l) there)
Reads-on answer answers (some (throws e)) h (skipped, last, rest, all, fails, bad, there) =
    (answer ∷ skipped, last, rest, (h, all), fails, bad, ap (λ l. answer ∷ l) there)

-- A read skips the answers upon which it calls recv again, and then gives the bytes of the first other
-- answer, at least one, and leaves the answers after it to the next read; or that answer is a failure
-- and it throws an exception that makes the connection unusable. It only goes on waiting while all
-- answers make it call again.
pub do_read-Reads : (answers : List Received) → Reads answers (do_read answers)
unfolding do_read Reads Retries Fails exception_poisons_connection is_kind
do_read-Reads [] = tt
do_read-Reads (bytes c cs ∷ rest) = ([], c, cs, tt, refl, refl)
do_read-Reads (closed ∷ rest) = ([], closed, rest, tt, tt, refl, refl)
do_read-Reads (interrupted ∷ rest) = Reads-on interrupted rest _ tt (do_read-Reads rest)
do_read-Reads (would_block true ∷ rest) =
    Reads-on (would_block true) rest _ refl (do_read-Reads rest)
do_read-Reads (would_block false ∷ rest) = ([], would_block false, rest, tt, refl, refl, refl)
do_read-Reads (recv_error ∷ rest) = ([], recv_error, rest, tt, tt, refl, refl)
