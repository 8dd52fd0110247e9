-- ===== src/Transport/Driven/Answers.antt =====
-- The loops of ch_transport.cpp with their waits, and the loops that are told how each wait ended.
use php_clickhouse.Base.{
  ℕ, suc, ◌≡◌, ◌∙◌, refl, ap, Bytes, Bool, true, false, List, [], ◌∷◌, Option, none, some,
  if◌then◌else◌, ltb, length,
}
use php_clickhouse.Errors.{Exception, Outcome, returns, throws, PhpException}
use php_clickhouse.Transport.{
  connection_failure, Received, bytes, closed, interrupted, would_block, recv_error, do_read, Sent,
  took, send_interrupted, send_would_block, send_error, Writing, took_bytes, do_write,
}
use php_clickhouse.Transport.Await.{ReactorCall, Reactor, Awaited, await_socket}
use php_clickhouse.Transport.Driven.{
  eintr, eagain, ewouldblock, other_errno, Recv, recv_bytes, recv_zero, recv_fails, Send, send_took,
  send_fails, Waited, one_more, after_wait, read_loop, write_loop,
}

-- The answers as the loops see them that are told how each wait ended. A wait may leave an exception pending.
abbrev pub received : List Recv → Option PhpException → List Received
received [] p = []
received (recv_bytes c cs ∷ rest) p = bytes c cs ∷ received rest p
received (recv_zero ∷ rest) p = closed ∷ received rest p
received (recv_fails eintr r ∷ rest) p = interrupted ∷ received rest p
received (recv_fails eagain r ∷ rest) p =
    would_block (await_socket r p).1 ∷ received rest (await_socket r p).2
received (recv_fails ewouldblock r ∷ rest) p =
    would_block (await_socket r p).1 ∷ received rest (await_socket r p).2
received (recv_fails other_errno r ∷ rest) p = recv_error ∷ received rest p

abbrev pub accepted : List Send → Option PhpException → List Sent
accepted [] p = []
accepted (send_took n ∷ rest) p = took n ∷ accepted rest p
accepted (send_fails eintr r ∷ rest) p = send_interrupted ∷ accepted rest p
accepted (send_fails eagain r ∷ rest) p =
    send_would_block (await_socket r p).1 ∷ accepted rest (await_socket r p).2
accepted (send_fails ewouldblock r ∷ rest) p =
    send_would_block (await_socket r p).1 ∷ accepted rest (await_socket r p).2
accepted (send_fails other_errno r ∷ rest) p = send_error ∷ accepted rest p

abbrev pub result_of : {A : Type 0} → Option (Waited A) → Option A
result_of none = none
result_of (some (ws, a, p)) = some a

-- The bytes of a read.
abbrev pub bytes_of : Option (Outcome (Bytes × List Received)) → Option (Outcome Bytes)
bytes_of none = none
bytes_of (some (returns (b, rest))) = some (returns b)
bytes_of (some (throws e)) = some (throws e)

result_of-one_more :
    {A : Type 0} (w : Bool × List ReactorCall) (o : Option (Waited A))
    → result_of (one_more w o) ≡ result_of o
unfolding one_more
result_of-one_more w none = refl
result_of-one_more w (some q) = refl

result_of-after_wait :
    {A : Type 0} (r : Reactor) (wait : Awaited) (failed : A) (again : Option (Waited A))
    → result_of (after_wait r wait failed again) ≡ (if wait.1 then result_of again else some failed)
unfolding after_wait
result_of-after_wait r (calls, true, p) failed again = result_of-one_more _ again
result_of-after_wait r (calls, false, p) failed again = refl

waited_read :
    (ok : Bool) (e : Exception) (again : Option (Outcome Bytes)) (rest : List Received)
    → e ≡ connection_failure "clickhouse: read interrupted"
    → again ≡ bytes_of (do_read rest)
    → (if ok then again else some (throws e)) ≡ bytes_of (do_read (would_block ok ∷ rest))
unfolding do_read
waited_read true e again rest h k = k
waited_read false e again rest h k = ap (λ x. some (throws x)) h

-- The read loop with its waits gives what the loop gives that is told how the waits ended.
pub read_loop-do_read :
    (answers : List Recv) (p : Option PhpException)
    → result_of (read_loop answers p) ≡ bytes_of (do_read (received answers p))
unfolding read_loop do_read
read_loop-do_read [] p = refl
read_loop-do_read (recv_bytes c cs ∷ rest) p = refl
read_loop-do_read (recv_zero ∷ rest) p = refl
read_loop-do_read (recv_fails eintr r ∷ rest) p = read_loop-do_read rest p
read_loop-do_read (recv_fails eagain r ∷ rest) p =
    result_of-after_wait r (await_socket r p) _ _
    ∙ waited_read _ _ _ _ refl (read_loop-do_read rest (await_socket r p).2)
read_loop-do_read (recv_fails ewouldblock r ∷ rest) p =
    result_of-after_wait r (await_socket r p) _ _
    ∙ waited_read _ _ _ _ refl (read_loop-do_read rest (await_socket r p).2)
read_loop-do_read (recv_fails other_errno r ∷ rest) p = refl

result_of-if :
    {A : Type 0} (b : Bool) (x y : Option (Waited A)) (x' y' : Option A)
    → result_of x ≡ x'
    → result_of y ≡ y'
    → result_of (if b then x else y) ≡ (if b then x' else y')
result_of-if true x y x' y' h k = h
result_of-if false x y x' y' h k = k

waited_write :
    (d : Bytes) (w : Writing) (ok : Bool) (again : Option (Outcome ℕ × Writing)) (rest : List Sent)
    → again ≡ do_write d rest w
    → (if ltb w.sent (length d)
        then (if ok
            then again
            else some (throws (connection_failure "clickhouse: write interrupted"), w))
        else some (returns (length d), w))
      ≡ do_write d (send_would_block ok ∷ rest) w
unfolding do_write
waited_write d w true again rest k =
    ap (λ o. if ltb w.sent (length d) then o else some (returns (length d), w)) k
waited_write d w false again rest k = refl

-- The write loop with its waits does what the loop does that is told how the waits ended.
pub write_loop-do_write :
    (d : Bytes) (answers : List Send) (p : Option PhpException) (w : Writing)
    → result_of (write_loop d answers p w) ≡ do_write d (accepted answers p) w
unfolding write_loop do_write
write_loop-do_write d [] p w = result_of-if _ _ _ _ _ refl refl
write_loop-do_write d (send_took n ∷ rest) p w =
    result_of-if _ _ _ _ _ (write_loop-do_write d rest p (took_bytes d (suc n) w)) refl
write_loop-do_write d (send_fails eintr r ∷ rest) p w =
    result_of-if _ _ _ _ _ (write_loop-do_write d rest p w) refl
write_loop-do_write d (send_fails eagain r ∷ rest) p w =
    result_of-if _ _ _ _ _ (result_of-after_wait r (await_socket r p) _ _) refl
    ∙ waited_write d w _ _ _ (write_loop-do_write d rest (await_socket r p).2 w)
write_loop-do_write d (send_fails ewouldblock r ∷ rest) p w =
    result_of-if _ _ _ _ _ (result_of-after_wait r (await_socket r p) _ _) refl
    ∙ waited_write d w _ _ _ (write_loop-do_write d rest (await_socket r p).2 w)
write_loop-do_write d (send_fails other_errno r ∷ rest) p w = result_of-if _ _ _ _ _ refl refl
