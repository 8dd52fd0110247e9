-- ===== src/Transport/Await.antt =====
-- `ch_await_socket` of ch_transport.cpp: the calls that it makes of the reactor, in order. What the reactor answers,
-- and the PHP exception that a call leaves pending, is a parameter.
use php_clickhouse.Base.{
  ◌≡◌, Bool, true, false, not, ◌&&◌, ◌||◌, List, [], ◌∷◌, Option, none, some, arith, if◌then◌else◌,
}
use php_clickhouse.Errors.{PhpException, pending_after}

pub data ReactorCall : Type 0 where
  new_socket_event release_event new_waker resume_when suspend clean_waker : ReactorCall

pub record Reactor : Type 0 where
  pub in_coroutine : Bool
  pub makes_event : Bool
  pub resumes : Bool
  pub raises : ReactorCall → Option PhpException

-- The calls in order, the answer, and the pending exception.
abbrev pub Awaited : Type 0
Awaited = List ReactorCall × Bool × Option PhpException

-- EG(exception) != nullptr
abbrev pub is_pending : Option PhpException → Bool
is_pending none = false
is_pending (some _) = true

unfoldable pub called : ReactorCall → Awaited → Awaited
called call (calls, ok, p) = (call ∷ calls, ok, p)

unfoldable pub suspended : Reactor → Option PhpException → Awaited
suspended r p =
    let p' = pending_after p (r.raises suspend) in
    (suspend ∷ clean_waker ∷ [], r.resumes && not (is_pending p'), p')

unfoldable pub armed : Reactor → Option PhpException → Awaited
unfolding called suspended
armed r p =
    let p' = pending_after p (r.raises resume_when) in
    if is_pending p'
    then (resume_when ∷ clean_waker ∷ [], false, p')
    else called resume_when (suspended r p')

unfoldable pub watched : Reactor → Option PhpException → Awaited
unfolding called armed
watched r p =
    let p' = pending_after p (r.raises new_waker) in
    if is_pending p'
    then (new_waker ∷ release_event ∷ [], false, p')
    else called new_waker (armed r p')

unfoldable pub await_socket : Reactor → Option PhpException → Awaited
unfolding called watched
await_socket r p =
    let p' = pending_after p (r.raises new_socket_event) in
    if r.in_coroutine
    then (if not r.makes_event || is_pending p'
        then (new_socket_event ∷ [], false, p')
        else called new_socket_event (watched r p'))
    else ([], false, p)

-- What is still to be released: the poll event, an event and beside it a waker that may have been made, or a waker
-- that holds the event.
pub data Owed : Type 0 where
  nothing event_only event_and_waker waker_with_event : Owed

-- What one call leaves of that. A waker releases what was given to it when it is cleaned, and only `resume_when` gives
-- it the event: an event that stands beside the waker stays. Releasing an event that the waker holds does not clean
-- the waker, and no call can give away or release what is not there. A `new_waker` that raises has made no waker.
abbrev pub after_call : Bool → Owed → ReactorCall → Owed
after_call true nothing new_socket_event = event_only
after_call made event_only release_event = nothing
after_call made event_only new_waker = event_and_waker
after_call made event_and_waker release_event = nothing
after_call made event_and_waker resume_when = waker_with_event
after_call made event_and_waker clean_waker = event_only
after_call made waker_with_event clean_waker = nothing
after_call made o call = o

-- `made` is whether the reactor makes the event.
abbrev pub owed_after : Bool → Owed → List ReactorCall → Owed
owed_after made o [] = o
owed_after made o (call ∷ calls) = owed_after made (after_call made o call) calls

-- A wait in a coroutine releases the poll event that it made, unless an exception was pending once the event was made:
-- then the event stays.
pub await_socket-owes :
    (r : Reactor) (p : Option PhpException)
    → r.in_coroutine ≡ true
    → owed_after r.makes_event nothing (await_socket r p).0 ≡ (
        if r.makes_event && is_pending (pending_after p (r.raises new_socket_event))
        then event_only
        else nothing)
unfolding await_socket watched armed suspended called
await_socket-owes r p c = ground arith

-- A wait that answers that the socket is ready was resumed in a coroutine, and no exception is pending before or after.
pub await_socket-ready :
    (r : Reactor) (p : Option PhpException)
    → (await_socket r p).1 ≡ true
    → (r.in_coroutine ≡ true) × (r.resumes ≡ true) × (p ≡ none) × ((await_socket r p).2 ≡ none)
unfolding await_socket watched armed suspended called
await_socket-ready r p h = ground arith
