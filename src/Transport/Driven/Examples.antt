-- ===== src/Transport/Driven/Examples.antt =====
-- A read that waits twice, and a write that is interrupted.
use php_clickhouse.Base.{◌≡◌, refl, codes, true, false, List, [], ◌∷◌, none, some}
use php_clickhouse.Errors.{returns, throws}
use php_clickhouse.Transport.{connection_failure, Writing, took_bytes, unsent}
use php_clickhouse.Transport.Await.{
  new_socket_event, new_waker, resume_when, suspend, clean_waker, Reactor, await_socket, watched,
  armed, suspended, called,
}
use php_clickhouse.Transport.Driven.{
  eintr, eagain, ewouldblock, Recv, recv_bytes, recv_fails, Send, send_took, send_fails, Waits,
  read_loop, write_loop, after_wait, one_more,
}
use php_clickhouse.Transport.Driven.Settled.{Judged, read_loop-settles}

abbrev ready : Reactor
ready = record { in_coroutine = true; makes_event = true; resumes = true; raises = λ call. none }

-- A coroutine that is cancelled.
abbrev cancelled : Reactor
cancelled = record {
  in_coroutine = true;
  makes_event = true;
  resumes = false;
  raises = λ call. none;
}

abbrev answers : List Recv
answers =
    recv_fails eagain ready
    ∷ recv_fails eintr ready
    ∷ recv_fails ewouldblock ready
    ∷ recv_bytes b'h' (codes "i")
    ∷ []

abbrev one_wait : Waits
one_wait = (true, new_socket_event ∷ new_waker ∷ resume_when ∷ suspend ∷ clean_waker ∷ []) ∷ []

abbrev two_waits : Waits
two_waits =
    (true, new_socket_event ∷ new_waker ∷ resume_when ∷ suspend ∷ clean_waker ∷ []) ∷ one_wait

read_loop-settles_example : Judged none two_waits none (returns (codes "hi"))
unfolding read_loop after_wait one_more await_socket watched armed suspended called
read_loop-settles_example =
    read_loop-settles answers none none two_waits (returns (codes "hi")) refl

-- Two bytes are on the wire when the coroutine is cancelled.
abbrev sends : List Send
sends = send_took 1 ∷ send_fails eagain cancelled ∷ send_took 2 ∷ []

abbrev half_sent : Writing
half_sent = record { sent = 2; wire = codes "he" ∷ [] }

cut_short :
    write_loop (codes "hello") sends none unsent
    ≡ some
        (one_wait, (throws (connection_failure "clickhouse: write interrupted"), half_sent), none)
unfolding write_loop after_wait one_more await_socket watched armed suspended called took_bytes
cut_short = refl
