-- ===== src/Transport/Driven/Settled.antt =====
-- What a loop of ch_transport.cpp has left of its waits.
use php_clickhouse.Base.{
  ℕ, suc, ◌≡◌, refl, Bytes, Bool, true, false, List, [], ◌∷◌, Option, none, some, All, arith,
  if◌then◌else◌, ltb, length,
}
use php_clickhouse.Errors.{
  Exception, Outcome, returns, throws, PhpException, is_kind, exception_poisons_connection,
}
use php_clickhouse.Transport.{connection_failure, Writing, took_bytes}
use php_clickhouse.Transport.Await.{
  ReactorCall, Reactor, Awaited, called, suspended, armed, watched, await_socket, owed_after,
  nothing,
}
use php_clickhouse.Transport.Driven.{
  eintr, eagain, ewouldblock, other_errno, Recv, recv_bytes, recv_zero, recv_fails, Send, send_took,
  send_fails, Waits, Waited, one_more, after_wait, read_loop, write_loop,
}

-- Each wait has released the poll event that it made.
abbrev pub AllReleased : Waits → Type 0
AllReleased ws = All (λ w. owed_after w.0 nothing w.1 ≡ nothing) ws

-- A loop that succeeds leaves the pending exception as it was and has released what it waited with; a loop that throws
-- makes the connection unusable.
abbrev pub Judged :
    {B : Type 0} → Option PhpException → Waits → Option PhpException → Outcome B → Type 0
Judged p ws p' (returns b) = (p' ≡ p) × AllReleased ws
Judged p ws p' (throws e) = exception_poisons_connection e ≡ true

module _ {A B : Type 0} (outcome : A → Outcome B) where
  abbrev pub Settles : Option PhpException → Option (Waited A) → Type 0
  Settles p none = Unit
  Settles p (some (ws, a, p')) = Judged p ws p' (outcome a)

  if-Settles :
      (b : Bool) (p : Option PhpException) (x y : Option (Waited A))
      → Settles p x
      → Settles p y
      → Settles p (if b then x else y)
  if-Settles true p x y h k = h
  if-Settles false p x y h k = k

  one_more-Judged :
      (w : Bool × List ReactorCall) (ws : Waits) (p p' : Option PhpException) (o : Outcome B)
      → owed_after w.0 nothing w.1 ≡ nothing
      → Judged p ws p' o
      → Judged p (w ∷ ws) p' o
  one_more-Judged w ws p p' (returns b) h (same, k) = (same, (h, k))
  one_more-Judged w ws p p' (throws e) h k = k

  one_more-Settles :
      (w : Bool × List ReactorCall) (p : Option PhpException) (o : Option (Waited A))
      → owed_after w.0 nothing w.1 ≡ nothing
      → Settles p o
      → Settles p (one_more w o)
  unfolding one_more
  one_more-Settles w p none h k = k
  one_more-Settles w p (some (ws, a, p')) h k = one_more-Judged w ws p p' (outcome a) h k

  -- A wait that answers that the socket is ready has released its event, and no exception is pending then or before.
  after_wait-Settles :
      (r : Reactor) (p : Option PhpException) (wait : Awaited) (failed : A)
      (again : Option (Waited A))
      → (wait.1 ≡ true → (wait.2 ≡ p) × (owed_after r.makes_event nothing wait.0 ≡ nothing))
      → (e : Exception) → outcome failed ≡ throws e
      → exception_poisons_connection e ≡ true
      → Settles wait.2 again
      → Settles p (after_wait r wait failed again)
  unfolding after_wait
  after_wait-Settles r p (calls, true, p') failed again ready e h b k =
      let (same, released) = ready refl in
      one_more-Settles (r.makes_event, calls) p again released (rw same at k)
  after_wait-Settles r p (calls, false, p') failed again ready e h b k = rw h b

await_socket-released :
    (r : Reactor) (p : Option PhpException)
    → (await_socket r p).1 ≡ true
    → ((await_socket r p).2 ≡ p) × (owed_after r.makes_event nothing (await_socket r p).0 ≡ nothing)
unfolding await_socket watched armed suspended called
await_socket-released r p h = ground arith

read_loop-Settles :
    (answers : List Recv) (p : Option PhpException) → Settles (λ o. o) p (read_loop answers p)
unfolding read_loop exception_poisons_connection is_kind
read_loop-Settles [] p = tt
read_loop-Settles (recv_bytes c cs ∷ rest) p = (refl, tt)
read_loop-Settles (recv_zero ∷ rest) p = refl
read_loop-Settles (recv_fails eintr r ∷ rest) p = read_loop-Settles rest p
read_loop-Settles (recv_fails eagain r ∷ rest) p =
    after_wait-Settles (λ o. o) r p (await_socket r p) _ _ (await_socket-released r p) _ refl refl
      (read_loop-Settles rest (await_socket r p).2)
read_loop-Settles (recv_fails ewouldblock r ∷ rest) p =
    after_wait-Settles (λ o. o) r p (await_socket r p) _ _ (await_socket-released r p) _ refl refl
      (read_loop-Settles rest (await_socket r p).2)
read_loop-Settles (recv_fails other_errno r ∷ rest) p = refl

abbrev outcome_of_write : Outcome ℕ × Writing → Outcome ℕ
outcome_of_write (o, w) = o

-- One round: all is sent, or the loop goes on with `again`.
round-Settles :
    (d : Bytes) (w : Writing) (p : Option PhpException)
    (again : Option (Waited (Outcome ℕ × Writing)))
    → Settles outcome_of_write p again
    → Settles outcome_of_write p
        (if ltb w.sent (length d) then again else some ([], (returns (length d), w), p))
round-Settles d w p again h =
    if-Settles outcome_of_write (ltb w.sent (length d)) p again
      (some ([], (returns (length d), w), p)) h (refl, tt)

wait-Settles :
    (r : Reactor) (p : Option PhpException) (w : Writing)
    (again : Option (Waited (Outcome ℕ × Writing)))
    → Settles outcome_of_write (await_socket r p).2 again
    → Settles outcome_of_write p (
        after_wait r
          (await_socket r p)
          (throws (connection_failure "clickhouse: write interrupted"), w)
          again)
unfolding exception_poisons_connection is_kind
wait-Settles r p w again h =
    after_wait-Settles outcome_of_write r p (await_socket r p)
      (throws (connection_failure "clickhouse: write interrupted"), w) again
      (await_socket-released r p) (connection_failure "clickhouse: write interrupted") refl refl h

write_loop-Settles :
    (d : Bytes) (answers : List Send) (p : Option PhpException) (w : Writing)
    → Settles outcome_of_write p (write_loop d answers p w)
unfolding write_loop exception_poisons_connection is_kind
write_loop-Settles d [] p w = round-Settles d w p none tt
write_loop-Settles d (send_took n ∷ rest) p w =
    round-Settles d w p _ (write_loop-Settles d rest p (took_bytes d (suc n) w))
write_loop-Settles d (send_fails eintr r ∷ rest) p w =
    round-Settles d w p _ (write_loop-Settles d rest p w)
write_loop-Settles d (send_fails eagain r ∷ rest) p w =
    round-Settles d w p _ (wait-Settles r p w _ (write_loop-Settles d rest (await_socket r p).2 w))
write_loop-Settles d (send_fails ewouldblock r ∷ rest) p w =
    round-Settles d w p _ (wait-Settles r p w _ (write_loop-Settles d rest (await_socket r p).2 w))
write_loop-Settles d (send_fails other_errno r ∷ rest) p w =
    round-Settles d w p (some ([], (throws (connection_failure "clickhouse: send failed"), w), p))
      refl

-- A read that gives bytes leaves the pending exception as it was, and each of its waits has released the poll event
-- that it made; a read that throws makes the connection unusable.
pub read_loop-settles :
    (answers : List Recv) (p p' : Option PhpException) (ws : Waits) (o : Outcome Bytes)
    → read_loop answers p ≡ some (ws, o, p')
    → Judged p ws p' o
read_loop-settles answers p p' ws o e = rw e at (read_loop-Settles answers p)

-- A write that reports the length leaves the pending exception as it was, and each of its waits has released the poll
-- event that it made; a write that throws makes the connection unusable.
pub write_loop-settles :
    (d : Bytes) (answers : List Send) (p p' : Option PhpException) (w w' : Writing) (ws : Waits)
    (o : Outcome ℕ)
    → write_loop d answers p w ≡ some (ws, (o, w'), p')
    → Judged p ws p' o
write_loop-settles d answers p p' w w' ws o e = rw e at (write_loop-Settles d answers p w)
