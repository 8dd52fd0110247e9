-- ===== src/Transport/Driven.antt =====
-- `AsyncInput::DoRead` and `AsyncOutput::DoWrite` of ch_transport.cpp together with the waits of `ch_await_socket`:
-- the loops over the answers of recv and send with their errno. Each answer stands with what the reactor does if the
-- loop waits after it.
pub mod Answers
pub mod Settled
mod Examples
use php_clickhouse.Base.{
  ℕ, suc, Bytes, String, Bool, true, false, List, [], ◌∷◌, Option, none, some, ltb, if◌then◌else◌,
  length,
}
use php_clickhouse.Errors.{Outcome, returns, throws, PhpException}
use php_clickhouse.Transport.{connection_failure, Writing, took_bytes}
use php_clickhouse.Transport.Await.{ReactorCall, Reactor, Awaited, await_socket}

-- CH_SOCK_LAST_ERROR
pub data Errno : Type 0 where
  eintr eagain ewouldblock other_errno : Errno

-- The answer of one `recv`: bytes, at least one; 0; or less than 0.
pub data Recv : Type 0 where
  recv_bytes : ℕ → Bytes → Recv
  recv_zero : Recv
  recv_fails : Errno → Reactor → Recv

-- The answer of one `send`: n + 1 bytes; or 0 or less.
pub data Send : Type 0 where
  send_took : ℕ → Send
  send_fails : Errno → Reactor → Send

-- The waits of a loop: whether the reactor made the poll event, and the calls of the wait.
abbrev pub Waits : Type 0
Waits = List (Bool × List ReactorCall)

-- The waits, the result, and the pending exception.
abbrev pub Waited : Type 0 → Type 0
Waited A = Waits × A × Option PhpException

pub one_more : {A : Type 0} → Bool × List ReactorCall → Option (Waited A) → Option (Waited A)
one_more w none = none
one_more w (some (ws, a, p)) = some (w ∷ ws, a, p)

-- `again` is the rest of the loop, and `failed` what the loop throws.
pub after_wait : {A : Type 0} → Reactor → Awaited → A → Option (Waited A) → Option (Waited A)
unfolding one_more
after_wait r (calls, true, p) failed again = one_more (r.makes_event, calls) again
after_wait r (calls, false, p) failed again = some ((r.makes_event, calls) ∷ [], failed, p)

pub read_loop : List Recv → Option PhpException → Option (Waited (Outcome Bytes))
unfolding after_wait
read_loop [] p = none
read_loop (recv_bytes c cs ∷ rest) p = some ([], returns (c ∷ cs), p)
read_loop (recv_zero ∷ rest) p =
    some ([], throws (connection_failure "clickhouse: connection closed by peer"), p)
read_loop (recv_fails eintr r ∷ rest) p = read_loop rest p
read_loop (recv_fails eagain r ∷ rest) p =
    let wait = await_socket r p in
    after_wait r wait (throws (connection_failure "clickhouse: read interrupted"))
      (read_loop rest wait.2)
read_loop (recv_fails ewouldblock r ∷ rest) p =
    let wait = await_socket r p in
    after_wait r wait (throws (connection_failure "clickhouse: read interrupted"))
      (read_loop rest wait.2)
read_loop (recv_fails other_errno r ∷ rest) p =
    some ([], throws (connection_failure "clickhouse: recv failed"), p)

pub write_loop :
    Bytes → List Send → Option PhpException → Writing → Option (Waited (Outcome ℕ × Writing))
unfolding after_wait
write_loop d [] p w = if ltb w.sent (length d) then none else some ([], (returns (length d), w), p)
write_loop d (send_took n ∷ rest) p w =
    let again = write_loop d rest p (took_bytes d (suc n) w) in
    if ltb w.sent (length d) then again else some ([], (returns (length d), w), p)
write_loop d (send_fails eintr r ∷ rest) p w =
    let again = write_loop d rest p w in
    if ltb w.sent (length d) then again else some ([], (returns (length d), w), p)
write_loop d (send_fails eagain r ∷ rest) p w =
    let wait = await_socket r p in
    let again = write_loop d rest wait.2 w in
    if ltb w.sent (length d)
    then after_wait r wait (throws (connection_failure "clickhouse: write interrupted"), w) again
    else some ([], (returns (length d), w), p)
write_loop d (send_fails ewouldblock r ∷ rest) p w =
    let wait = await_socket r p in
    let again = write_loop d rest wait.2 w in
    if ltb w.sent (length d)
    then after_wait r wait (throws (connection_failure "clickhouse: write interrupted"), w) again
    else some ([], (returns (length d), w), p)
write_loop d (send_fails other_errno r ∷ rest) p w =
    if ltb w.sent (length d)
    then some ([], (throws (connection_failure "clickhouse: send failed"), w), p)
    else some ([], (returns (length d), w), p)
