-- ===== src/Transport/Examples.antt =====
-- Sends and receives that are cut up and interrupted.
use php_clickhouse.Base.{◌≡◌, refl, codes, true, List, [], ◌∷◌, none, some, arith, ℕ}
use php_clickhouse.Errors.{Outcome, returns}
use php_clickhouse.Transport.{
  Received, bytes, closed, interrupted, would_block, do_read, Sent, took, send_interrupted,
  send_would_block, Writing, took_bytes, do_write, unsent,
}
use php_clickhouse.Transport.Complete.{
  Ended, do_write-ends_whole_or_broken, do_write-terminates, takes,
}
use php_clickhouse.Transport.Await.{Reactor, await_socket, owed_after, nothing, await_socket-owes}
use php_clickhouse.Transport.Reading.{Reads, do_read-Reads}

abbrev hello : List ℕ
hello = codes "hello"

-- Two bytes, a signal, a wait, and three bytes.
abbrev in_two : List Sent
in_two = took 1 ∷ send_interrupted ∷ send_would_block true ∷ took 2 ∷ []

abbrev sent_in_two : Writing
sent_in_two = record { sent = 5; wire = codes "he" ∷ codes "llo" ∷ [] }

do_write-ends_whole_or_broken_example : Ended hello (returns 5, sent_in_two)
unfolding do_write took_bytes
do_write-ends_whole_or_broken_example =
    do_write-ends_whole_or_broken hello in_two (returns 5, sent_in_two) refl

-- An answer for each byte.
abbrev byte_by_byte : List Sent
byte_by_byte = took 0 ∷ took 0 ∷ send_interrupted ∷ took 0 ∷ took 0 ∷ took 0 ∷ []

do_write-terminates_example :
    (q : Outcome ℕ × Writing) × (do_write hello byte_by_byte unsent ≡ some q)
unfolding takes
do_write-terminates_example = do_write-terminates hello byte_by_byte (omega arith)

abbrev two_reads : List Received
two_reads = interrupted ∷ would_block true ∷ bytes b'h' (codes "i") ∷ closed ∷ []

do_read-Reads_example : Reads two_reads (do_read two_reads)
do_read-Reads_example = do_read-Reads two_reads

-- The first read leaves the end of the stream to the next.
read_hi : do_read two_reads ≡ some (returns (codes "hi", closed ∷ []))
unfolding do_read
read_hi = refl

-- The reactor makes an event, and a coroutine that is resumed finds the socket ready.
abbrev ready : Reactor
ready = record { in_coroutine = true; makes_event = true; resumes = true; raises = λ call. none }

await_socket-owes_example : owed_after true nothing (await_socket ready none).0 ≡ nothing
await_socket-owes_example = await_socket-owes ready none refl
