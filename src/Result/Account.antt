-- ===== src/Result/Account.antt =====
-- The packets that a result has counted in its statistics, and those that are still to come.
use php_clickhouse.Base.{
  ◌≡◌, ◌∙◌, inl, inr, refl, sym, ap, Bool, true, false, List, [], ◌∷◌, ◌++◌, append_assoc,
  append-nil, Option, none, Bool-cases, if◌then◌else◌, ltb, ℕ,
}
use php_clickhouse.Errors.{Exception, Outcome, Outcome-cases, PhpException, pending_after}
use php_clickhouse.Connection.{Connection}
use php_clickhouse.Stream.{
  Packet, Stream, block, finished, fails, exhausted, Opening, begun, refused,
}
use php_clickhouse.Result.{
  Result, Reply, Summary, empty_summary, on_packet, on_packets, init, finish, release, load_block,
  absorb, caught, prime, start, convert_row, deliver, emit, pull, next, get_summary,
}
use php_clickhouse.Result.Release.{Reached, started, called}

-- The packets of the calls that are left, in order.
unfoldable pub packets_of : {Column : Type 0} → Stream Column → List Packet
packets_of (block ps b rest) = ps ++ packets_of rest
packets_of (finished ps) = ps
packets_of (fails ps thrown e) = ps
packets_of exhausted = []

unfoldable pub query_packets : {Column : Type 0} → Opening Column → List Packet
query_packets (begun s) = packets_of s
query_packets (refused thrown e) = []

on_packets-++ :
    (ps qs : List Packet) (s : Summary) → on_packets (ps ++ qs) s ≡ on_packets qs (on_packets ps s)
unfolding on_packets
on_packets-++ [] qs s = refl
on_packets-++ (p ∷ ps) qs s = on_packets-++ ps qs (on_packet p s)

module _ {Column : Type 0} (all : List Packet) where
  -- The statistics count the packets before those of `s`, each once and in order.
  abbrev Counts : Stream Column → Result Column → Type 0
  Counts s r =
      (seen : List Packet) × (r.summary ≡ on_packets seen empty_summary)
      × (seen ++ packets_of s ≡ all)

  abbrev pub Accounts : Result Column → Type 0
  Accounts r = Counts r.stream r

  absorb-Counts :
      (ps : List Packet) (s rest : Stream Column) (r : Result Column)
      → packets_of s ≡ ps ++ packets_of rest
      → Counts s r
      → Accounts (absorb ps rest r)
  unfolding absorb
  absorb-Counts ps s rest r e (seen, sum, parts) = (
    seen ++ ps,
    ap (on_packets ps) sum ∙ sym (on_packets-++ seen ps empty_summary),
    append_assoc seen ps _ ∙ ap (λ l. seen ++ l) (sym e) ∙ parts,
  )

  finish-Accounts : (r : Result Column) → Accounts r → Accounts (finish r)
  unfolding finish release
  finish-Accounts r h = elim (Bool-cases r.done) [
    | inl d ↦ elim (Bool-cases r.released) [ inl gone ↦ rw (d, gone) h | inr here ↦ rw (d, here) h ]
    | inr d ↦ elim (Bool-cases r.released) [ inl gone ↦ rw (d, gone) h | inr here ↦ rw (d, here) h ]
  ]

  either-Accounts :
      {A : Type 0} (b : Bool) (x y : Reply Column A)
      → Accounts x.0
      → Accounts y.0
      → Accounts (if b then x else y).0
  either-Accounts true x y h k = h
  either-Accounts false x y h k = k

  caught-Accounts :
      {A : Type 0} (e : Exception) (a : A) (r : Result Column) (p : Option PhpException)
      → Accounts r
      → Accounts (caught e a r p).0
  unfolding caught
  caught-Accounts e a r p h = finish-Accounts _ h

  prime-Accounts :
      (s : Stream Column) (r : Result Column) (p : Option PhpException)
      → r.stream ≡ s
      → Counts s r
      → Accounts (prime s r p).0
  unfolding prime load_block packets_of absorb
  prime-Accounts (block ps b rest) r p e h =
      let this = absorb-Counts ps (block ps b rest) rest r refl h in
      either-Accounts (ltb 0 b.row_count) _ _ this
        (prime-Accounts rest (absorb ps rest r) p refl this)
  prime-Accounts (finished ps) r p e h =
      finish-Accounts _ (absorb-Counts ps (finished ps) exhausted r (sym (append-nil ps)) h)
  prime-Accounts (fails ps thrown x) r p e h =
      caught-Accounts x false _ (pending_after p thrown)
        (absorb-Counts ps (fails ps thrown x) exhausted r (sym (append-nil ps)) h)
  prime-Accounts exhausted r p e h = rw e h

  module _ {Value : Type 0} (cell : Column → ℕ → Outcome Value) where
    emit-Accounts :
        (r : Result Column) (p : Option PhpException) → Accounts r → Accounts (emit cell r p).0
    unfolding emit deliver
    emit-Accounts r p h = elim (Outcome-cases (convert_row cell r.cols r.keys r.row [])) [
      | inl (v, eq) ↦ rw eq h
      | inr (e, eq) ↦ rw eq (caught-Accounts e none r p h)
    ]

    pull-Accounts :
        (s : Stream Column) (r : Result Column) (p : Option PhpException)
        → r.stream ≡ s
        → Counts s r
        → Accounts (pull cell s r p).0
    unfolding pull load_block packets_of absorb
    pull-Accounts (block ps b rest) r p e h =
        let this = absorb-Counts ps (block ps b rest) rest r refl h in
        let r' = load_block b (absorb ps rest r) in
        either-Accounts (ltb 0 b.row_count) _ _ (emit-Accounts r' p this)
          (either-Accounts r.done (r', none, p) _ this (pull-Accounts rest r' p refl this))
    pull-Accounts (finished ps) r p e h =
        finish-Accounts _ (absorb-Counts ps (finished ps) exhausted r (sym (append-nil ps)) h)
    pull-Accounts (fails ps thrown x) r p e h =
        caught-Accounts x none _ (pending_after p thrown)
          (absorb-Counts ps (fails ps thrown x) exhausted r (sym (append-nil ps)) h)
    pull-Accounts exhausted r p e h = rw e h

    next-Accounts :
        (r : Result Column) (p : Option PhpException) → Accounts r → Accounts (next cell r p).0
    unfolding next
    next-Accounts r p h =
        either-Accounts (ltb r.row r.rows) _ _ (emit-Accounts r p h)
          (either-Accounts r.done (r, none, p) _ h (pull-Accounts r.stream r p refl h))

start-Accounts :
    {Column : Type 0} (conn : Connection) (o : Opening Column) (p : Option PhpException)
    → Accounts (query_packets o) (start conn o p).0
unfolding start init query_packets on_packets packets_of
start-Accounts conn (begun s) p =
    prime-Accounts (packets_of s) s (record (init conn) { stream = s }) p refl ([], refl, refl)
start-Accounts conn (refused thrown e) p =
    caught-Accounts [] e false (init conn) (pending_after p thrown) ([], refl, refl)

-- The statistics of a result after any calls count the packets that the library has reported so far, each once
-- and in order, and those that are still to come are the rest of the query's.
pub Reached-Accounts :
    {Column Value : Type 0} (cell : Column → ℕ → Outcome Value) (conn : Connection)
    (o : Opening Column) (p : Option PhpException) (r : Result Column)
    → Reached cell (start conn o p).0 r
    → Accounts (query_packets o) r
Reached-Accounts cell conn o p _ started = start-Accounts conn o p
Reached-Accounts cell conn o p _ (called {before} pending h) =
    next-Accounts (query_packets o) cell before pending (Reached-Accounts cell conn o p before h)

-- A result whose stream is at its end has counted all packets of the query.
pub summary-drained :
    {Column Value : Type 0} (cell : Column → ℕ → Outcome Value) (conn : Connection)
    (o : Opening Column) (p : Option PhpException) (r : Result Column)
    → Reached cell (start conn o p).0 r
    → r.stream ≡ exhausted
    → get_summary r ≡ on_packets (query_packets o) empty_summary
unfolding get_summary packets_of
summary-drained cell conn o p r h e =
    let (seen, sum, parts) = Reached-Accounts cell conn o p r h in
    let whole : seen ≡ query_packets o = sym (append-nil seen) ∙ rw e at parts in
    sum ∙ ap (λ l. on_packets l empty_summary) whole
