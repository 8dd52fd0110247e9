-- ===== src/Lifetime/Holders.antt =====
-- A Result or a Batch object as a holder of a reference to its Client: what its calls and its end do to the Client.
use php_clickhouse.Base.{
  ℕ, suc, ◌+◌, ◌<◌, ◌≤◌, ◌≡◌, inl, inr, refl, ap, Bool, true, false, Bytes, List, [], Option, none,
  some, length, arith,
}
use php_clickhouse.Errors.{PhpException}
use php_clickhouse.Connection.{Connection}
use php_clickhouse.Connection.Moves.{one_if, one_more, still_out, Moves, Moves-counts}
use php_clickhouse.Stream.{Opening}
use php_clickhouse.Result
use php_clickhouse.Result.{Result}
use php_clickhouse.Result.Moves.{start-Moves}
use php_clickhouse.Result.Release.{start_refused}
use php_clickhouse.Batch.Moves.{start-holds}
use php_clickhouse.Batch.{Batch}
use php_clickhouse.Lifetime.{
  Client, pool_acquire, give_back, Holder, free_handle, object_free, start_result, start_query,
  client_query, start_batch, client_insert_batch,
}
use php_clickhouse.Lifetime.Events.{
  Alive, Serves, recount, recount_refs, same_Serves, pool_acquire-Alive, give_back-Alive,
  keep-Alive, obj_release-Serves,
}

pub Serves-Alive : {k n : ℕ} {c : Client} → Serves k n c → 0 < k → Alive k n c
Serves-Alive (inl (lt, h)) p = h
Serves-Alive (inr (z, _, _)) p = absurd (omega (arith, z))

-- A call that moves a handle leaves out the connections that it does not give back.
pub call-Alive :
    (b b' : Bool) (cs cs' : List Connection) (k n : ℕ) (c : Client)
    → length cs ≡ one_if b
    → Moves b cs b' cs'
    → Alive k (still_out b + n) c
    → Alive k (still_out b' + n) (give_back cs cs' c) × (length cs' ≡ one_if b')
call-Alive b b' cs cs' k n c s mv a =
    let (m, longer, less, s') = Moves-counts b b' cs cs' mv s in
    (give_back-Alive cs cs' k m _ c longer (recount c (omega (arith, less)) a), s')

-- The connections of a handle that are out.
abbrev pub out_of : {Handle : Type 0} → (Handle → Bool) → Option Handle → ℕ
out_of released none = 0
out_of released (some h) = still_out (released h)

le_one : (b kept : Bool) → kept ≡ true → still_out b ≤ one_if kept
le_one b kept e = ground (arith, e)

module _ {Handle : Type 0} (released : Handle → Bool) (releases : Handle → List Connection) where
  -- A handle is one of a Client that is kept, and it gave its connection back if it says so.
  abbrev pub SoundHandle : Option Handle → Bool → Type 0
  SoundHandle none kept = kept ≡ false
  SoundHandle (some h) kept = (kept ≡ true) × (length (releases h) ≡ one_if (released h))

  pub out_of-le :
      (o : Option Handle) (kept : Bool) → SoundHandle o kept → out_of released o ≤ one_if kept
  out_of-le none kept s = omega arith
  out_of-le (some h) kept s = le_one (released h) kept s.0

  abbrev HandleMoves : Handle → Handle → Type 0
  HandleMoves h h' = Moves (released h) (releases h) (released h') (releases h')

  end_handle-Serves :
      (end : Handle → Handle) (handle : Option Handle) (kept : Bool) (k n : ℕ) (c : Client)
      → ((h : Handle) → HandleMoves h (end h) × (released (end h) ≡ true))
      → SoundHandle handle kept
      → Serves (one_if kept + k) (out_of released handle + n) c
      → (k ≡ 0 → n ≡ 0)
      → Serves k n (object_free end releases (record { handle = handle; client_obj = kept }) c)
  unfolding object_free free_handle
  end_handle-Serves end none true k n c mv s a e = absurd (cc s)
  end_handle-Serves end none false k n c mv s a e = same_Serves c (omega arith) (omega arith) a
  end_handle-Serves end (some h) false k n c mv (s, l) a e = absurd (cc s)
  end_handle-Serves end (some h) true k n c mv (s, l) a e =
      let (moved, gone) = mv h in
      let alive = Serves-Alive a (omega arith) in
      let (back, _) =
        call-Alive (released h) (released (end h)) (releases h) (releases (end h)) (1 + k) n c l
          moved alive in
      obj_release-Serves k n _
        (recount _ (omega (arith, ap still_out gone)) (recount_refs _ (omega arith) back)) e

  -- The end of an object takes its reference off the Client, and its connection comes back.
  pub object_free-Serves :
      (end : Handle → Handle) (o : Holder Handle) (k n : ℕ) (c : Client)
      → ((h : Handle) → HandleMoves h (end h) × (released (end h) ≡ true))
      → SoundHandle o.handle o.client_obj
      → Serves (one_if o.client_obj + k) (out_of released o.handle + n) c
      → (k ≡ 0 → n ≡ 0)
      → Serves k n (object_free end releases o c)
  object_free-Serves end o k n c = end_handle-Serves end o.handle o.client_obj k n c

-- What a call that may make an object does: it is sound, and the Client is alive with one more reference.
module _ {Handle : Type 0} (released : Handle → Bool) (releases : Handle → List Connection) where
  abbrev pub Gains : ℕ → ℕ → Option (Holder Handle) → Client → Type 0
  Gains k n none c = Alive k n c
  Gains k n (some o) c =
      SoundHandle released releases o.handle o.client_obj
      × Alive (one_if o.client_obj + k) (out_of released o.handle + n) c

abbrev pub ResultGains :
    {Column : Type 0} → ℕ → ℕ → Option (Holder (Result Column)) → Client → Type 0
ResultGains = Gains (λ r. r.released) (λ r. r.pool_releases)

abbrev pub BatchGains : {Cell : Type 0} → ℕ → ℕ → Option (Holder (Batch Cell)) → Client → Type 0
BatchGains = Gains (λ b. b.released) (λ b. b.pool_releases)

module _ {Column : Type 0} where
  start_result-Gains :
      (r : Result Column) (there : Bool) (p : Option PhpException) (k n : ℕ) (c : Client)
      → Moves false [] r.released r.pool_releases
      → (there ≡ false → r.released ≡ true)
      → Alive k (suc n) c
      → let q = start_result (r, there, p) c in ResultGains k n q.1 q.0
  unfolding start_result
  start_result-Gains r true p k n c mv gone a =
      let (back, l) =
        call-Alive false r.released [] r.pool_releases k n c refl mv (recount c (omega arith) a) in
      ((refl, l), recount_refs _ (omega arith) (keep-Alive k _ _ back))
  start_result-Gains r false p k n c mv gone a =
      let (back, l) =
        call-Alive false r.released [] r.pool_releases k n c refl mv (recount c (omega arith) a) in
      recount _ (omega (arith, ap still_out (gone refl))) back

  start_query-Gains :
      (answer : Option Connection) (o : Opening Column) (p : Option PhpException) (k n : ℕ)
      (c : Client)
      → Alive k (one_more answer n) c
      → let q = start_query answer o p c in ResultGains k n q.1 q.0
  unfolding start_query
  start_query-Gains none o p k n c a = a
  start_query-Gains (some conn) o p k n c a =
      let q = Result.start conn o p in
      start_result-Gains q.0 q.1 q.2 k n c (start-Moves conn o p) (start_refused conn o p) a

  pub client_query-Gains :
      (made : Bool) (answer : Option Connection) (o : Opening Column) (p : Option PhpException)
      (k n : ℕ) (c : Client)
      → Alive k n c
      → let q = client_query made answer o p c in ResultGains k n q.1 q.0
  unfolding client_query
  client_query-Gains made answer o p k n c a =
      let q = pool_acquire made answer c in
      start_query-Gains q.1 o p k n q.0 (pool_acquire-Alive made answer k n c a)

module _ (Cell : Type 0) where
  start_batch-Gains :
      (table : Bytes) (columns : List Bytes) (answer : Option Connection) (k n : ℕ) (c : Client)
      → Alive k (one_more answer n) c
      → let q = start_batch {Cell = Cell} table columns answer c in BatchGains k n q.1 q.0
  unfolding start_batch
  start_batch-Gains table columns none k n c a = a
  start_batch-Gains table columns (some conn) k n c a =
      let (holds, none_back) = start-holds Cell conn table columns in
      (
        (refl, omega (arith, ap length none_back, ap one_if holds)),
        recount _ (omega (arith, ap still_out holds))
            (recount_refs _ (omega arith) (keep-Alive k _ c a)),
      )

  pub client_insert_batch-Gains :
      (made : Bool) (answer : Option Connection) (table : Bytes) (columns : List Bytes) (k n : ℕ)
      (c : Client)
      → Alive k n c
      → let q = client_insert_batch {Cell = Cell} made answer table columns c in
        BatchGains k n q.1 q.0
  unfolding client_insert_batch
  client_insert_batch-Gains made answer table columns k n c a =
      let q = pool_acquire made answer c in
      start_batch-Gains table columns q.1 k n q.0 (pool_acquire-Alive made answer k n c a)
