-- ===== src/Transport.antt =====
-- `AsyncInput::DoRead`, `AsyncOutput::DoWrite`, `TlsInput::DoRead` and `TlsOutput::DoWrite` of
-- ch_transport.cpp. What the operating system, the reactor and the TLS stream answer is input: a list
-- of the answers to the calls of recv or send, one after another. `none` stands for a loop that still
-- runs when the answers are used up.
pub mod Complete
pub mod Reading
pub mod Await
pub mod Driven
pub mod Socket
mod Examples
use php_clickhouse.Base.{
  ℕ, zero, suc, ◌+◌, ◌-◌, Bytes, codes, String, Bool, true, false, List, [], ◌∷◌, ◌++◌, Option,
  none, some, ltb, if◌then◌else◌, length, take, drop,
}
use php_clickhouse.Base.Int.{pos}
use php_clickhouse.Errors.{Exception, connection_error, Outcome, returns, throws}

-- throw chasync::ConnectionError(what)
abbrev pub connection_failure : String → Exception
connection_failure what = record { kind = connection_error; what = codes what; code = pos 0 }

-- The answer of one `recv`: bytes, at least one; the end of the stream; or an errno. Where the call would
-- block, `ready` is the answer of `ch_await_socket`.
pub data Received : Type 0 where
  bytes : ℕ → Bytes → Received
  closed interrupted : Received
  would_block : Bool → Received
  recv_error : Received

-- The bytes of the first answer that has some, and the answers after it.
pub do_read : List Received → Option (Outcome (Bytes × List Received))
do_read [] = none
do_read (bytes c cs ∷ rest) = some (returns (c ∷ cs, rest))
do_read (closed ∷ rest) = some (throws (connection_failure "clickhouse: connection closed by peer"))
do_read (interrupted ∷ rest) = do_read rest
do_read (would_block true ∷ rest) = do_read rest
do_read (would_block false ∷ rest) =
    some (throws (connection_failure "clickhouse: read interrupted"))
do_read (recv_error ∷ rest) = some (throws (connection_failure "clickhouse: recv failed"))

-- The answer of one `send` that is asked to send the rest of the data: `took n` says that it took n + 1
-- bytes; any other answer, 0 included, is judged by errno.
pub data Sent : Type 0 where
  took : ℕ → Sent
  send_interrupted : Sent
  send_would_block : Bool → Sent
  send_error : Sent

-- The calls of `send` that took bytes, each with the bytes that it took: data[sent, sent + n).
pub record Writing : Type 0 where
  pub sent : ℕ
  pub wire : List Bytes

-- sent += n after a send of `p + sent`
pub took_bytes : Bytes → ℕ → Writing → Writing
took_bytes p n w = record { sent = w.sent + n; wire = w.wire ++ take n (drop w.sent p) ∷ [] }

pub do_write : Bytes → List Sent → Writing → Option (Outcome ℕ × Writing)
do_write p [] w = if ltb w.sent (length p) then none else some (returns (length p), w)
do_write p (took n ∷ rest) w =
    let again = do_write p rest (took_bytes p (suc n) w) in
    if ltb w.sent (length p) then again else some (returns (length p), w)
do_write p (send_interrupted ∷ rest) w =
    let again = do_write p rest w in
    if ltb w.sent (length p) then again else some (returns (length p), w)
do_write p (send_would_block true ∷ rest) w =
    let again = do_write p rest w in
    if ltb w.sent (length p) then again else some (returns (length p), w)
do_write p (send_would_block false ∷ rest) w =
    if ltb w.sent (length p)
    then some (throws (connection_failure "clickhouse: write interrupted"), w)
    else some (returns (length p), w)
do_write p (send_error ∷ rest) w =
    if ltb w.sent (length p)
    then some (throws (connection_failure "clickhouse: send failed"), w)
    else some (returns (length p), w)

-- The answer of `php_stream_read`: bytes, or n <= 0.
pub tls_read : Bytes → Outcome Bytes
tls_read [] = throws (connection_failure "clickhouse: tls connection closed")
tls_read (c ∷ cs) = returns (c ∷ cs)

-- The answers of `php_stream_write`: how many bytes it took, 0 for n <= 0.
pub tls_write : Bytes → List ℕ → Writing → Option (Outcome ℕ × Writing)
tls_write p [] w = if ltb w.sent (length p) then none else some (returns (length p), w)
tls_write p (n ∷ rest) w =
    let again = tls_write p rest (took_bytes p n w) in
    if ltb w.sent (length p)
    then (if ltb 0 n
        then again
        else some (throws (connection_failure "clickhouse: tls write failed"), w))
    else some (returns (length p), w)

-- As both loops begin.
abbrev pub unsent : Writing
unsent = record { sent = 0; wire = [] }
