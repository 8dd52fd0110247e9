-- ===== src/Lifetime/Counts.antt =====
-- A Client counts the references and the connections of the objects that PHP code got from it, in each call.
use php_clickhouse.Base.{
  ℕ, suc, ◌+◌, ◌≤◌, ◌≡◌, inl, refl, ap, Bool, List, [], ◌∷◌, ◌++◌, Option, none, some, length, All,
  arith,
}
use php_clickhouse.Connection.{Connection}
use php_clickhouse.Connection.Moves.{one_if, still_out, Moves}
use php_clickhouse.Result
use php_clickhouse.Result.{Result}
use php_clickhouse.Result.Moves.{free-Moves}
use php_clickhouse.Batch
use php_clickhouse.Batch.{Batch}
use php_clickhouse.Batch.Moves.{batch_free-Moves}
use php_clickhouse.Lifetime.{
  Client, obj_release, give_back, Holder, result_object_free, batch_object_free,
}
use php_clickhouse.Lifetime.Events.{
  Alive, Serves, recount, recount_refs, same_Serves, obj_release-Serves,
}
use php_clickhouse.Lifetime.Holders.{
  Serves-Alive, SoundHandle, out_of, out_of-le, call-Alive, object_free-Serves, ResultGains,
  BatchGains,
}
use php_clickhouse.Lifetime.System.{
  Object, result_object, batch_object, free_object, add_result, add_batch, System,
}

module _ {Column Cell : Type 0} where
  abbrev pub Sound : Object Column Cell → Type 0
  Sound (result_object o) =
      SoundHandle (λ r. r.released) (λ r. r.pool_releases) o.handle o.client_obj
  Sound (batch_object o) =
      SoundHandle (λ b. b.released) (λ b. b.pool_releases) o.handle o.client_obj

  -- The references to the Client, and the connections, that the objects hold.
  abbrev pub holds : Object Column Cell → ℕ
  holds (result_object o) = one_if o.client_obj
  holds (batch_object o) = one_if o.client_obj

  abbrev pub still : Object Column Cell → ℕ
  still (result_object o) = out_of (λ r. r.released) o.handle
  still (batch_object o) = out_of (λ b. b.released) o.handle

  abbrev pub total : (Object Column Cell → ℕ) → List (Object Column Cell) → ℕ
  total f [] = 0
  total f (o ∷ os) = f o + total f os

  total-split :
      (f : Object Column Cell → ℕ) (xs ys : List (Object Column Cell)) (o : Object Column Cell)
      → total f (xs ++ o ∷ ys) ≡ f o + total f (xs ++ ys)
  total-split f [] ys o = refl
  total-split f (x ∷ xs) ys o = omega (arith, total-split f xs ys o)

  All-split :
      (xs ys : List (Object Column Cell)) (o : Object Column Cell)
      → All Sound (xs ++ o ∷ ys)
      → Sound o × All Sound (xs ++ ys)
  All-split [] ys o h = h
  All-split (x ∷ xs) ys o (hx, h) = let (ho, rest) = All-split xs ys o h in (ho, (hx, rest))

  All-insert :
      (xs ys : List (Object Column Cell)) (o : Object Column Cell)
      → Sound o
      → All Sound (xs ++ ys)
      → All Sound (xs ++ o ∷ ys)
  All-insert [] ys o ho h = (ho, h)
  All-insert (x ∷ xs) ys o ho (hx, h) = (hx, All-insert xs ys o ho h)

  still-le-holds : (o : Object Column Cell) → Sound o → still o ≤ holds o
  still-le-holds (result_object o) s = out_of-le _ _ o.handle o.client_obj s
  still-le-holds (batch_object o) s = out_of-le _ _ o.handle o.client_obj s

  -- An object holds a connection only while it holds its Client.
  total-still : (os : List (Object Column Cell)) → All Sound os → total still os ≤ total holds os
  total-still [] s = omega arith
  total-still (o ∷ os) (so, s) = omega (arith, still-le-holds o so, total-still os s)

  -- Every object is sound, and the Client counts the references and the connections of all of them.
  abbrev pub Counts : Client → ℕ → List (Object Column Cell) → Type 0
  Counts c users os = All Sound os × Serves (users + total holds os) (total still os) c

  -- While PHP code has a reference, the Client is alive.
  pub user-Alive :
      (s : System Column Cell) (u : ℕ)
      → s.users ≡ suc u
      → Counts s.client s.users s.objects
      → Alive (s.users + total holds s.objects) (total still s.objects) s.client
  user-Alive s u e (_, serves) = Serves-Alive serves (omega (arith, e))

  pub Alive-Counts :
      (c : Client) (users u : ℕ) (os : List (Object Column Cell))
      → users ≡ suc u
      → All Sound os
      → Alive (users + total holds os) (total still os) c
      → Counts c users os
  Alive-Counts c users u os e h a = (h, inl (omega (arith, e), a))

  pub add_result-Counts :
      (c : Client) (users u : ℕ) (os : List (Object Column Cell))
      (o : Option (Holder (Result Column)))
      → users ≡ suc u
      → All Sound os
      → ResultGains (users + total holds os) (total still os) o c
      → Counts c users (add_result o os)
  add_result-Counts c users u os none e h a = Alive-Counts c users u os e h a
  add_result-Counts c users u os (some o) e h (s, a) =
      Alive-Counts c users u (result_object o ∷ os) e (s, h) (recount_refs c (omega arith) a)

  pub add_batch-Counts :
      (c : Client) (users u : ℕ) (os : List (Object Column Cell)) (o : Option (Holder (Batch Cell)))
      → users ≡ suc u
      → All Sound os
      → BatchGains (users + total holds os) (total still os) o c
      → Counts c users (add_batch o os)
  add_batch-Counts c users u os none e h a = Alive-Counts c users u os e h a
  add_batch-Counts c users u os (some o) e h (s, a) =
      Alive-Counts c users u (batch_object o ∷ os) e (s, h) (recount_refs c (omega arith) a)

  pub discard-Counts :
      (s : System Column Cell) (u : ℕ)
      → s.users ≡ suc u
      → Counts s.client s.users s.objects
      → Counts (obj_release s.client) u s.objects
  discard-Counts s u e (sound, serves) =
      let a = user-Alive s u e (sound, serves) in
      (
        sound,
        obj_release-Serves (u + total holds s.objects) (total still s.objects) s.client
            (recount_refs s.client (omega (arith, e)) a)
            (λ z. omega (arith, z, total-still s.objects sound)),
      )

  free_object-Serves :
      (o : Object Column Cell) (k n : ℕ) (c : Client)
      → Sound o
      → Serves (holds o + k) (still o + n) c
      → (k ≡ 0 → n ≡ 0)
      → Serves k n (free_object o c)
  unfolding free_object result_object_free batch_object_free
  free_object-Serves (result_object o) k n c = object_free-Serves _ _ Result.free o k n c free-Moves
  free_object-Serves (batch_object o) k n c =
      object_free-Serves _ _ Batch.free o k n c batch_free-Moves

  pub free-Counts :
      (c : Client) (users : ℕ) (xs ys : List (Object Column Cell)) (o : Object Column Cell)
      → Counts c users (xs ++ o ∷ ys)
      → Counts (free_object o c) users (xs ++ ys)
  free-Counts c users xs ys o (sound, serves) =
      let (so, rest) = All-split xs ys o sound in
      (
        rest,
        free_object-Serves o (users + total holds (xs ++ ys)) (total still (xs ++ ys)) c so
            (same_Serves c (omega (arith, total-split holds xs ys o)) (total-split still xs ys o)
              serves)
            (λ z. omega (arith, z, total-still (xs ++ ys) rest)),
      )

  -- A call on an object that holds its connection.
  call-Counts :
      (c : Client) (users : ℕ) (xs ys : List (Object Column Cell)) (o o' : Object Column Cell)
      (b b' : Bool) (cs cs' : List Connection)
      → (holds o ≡ 1) × (holds o' ≡ 1) × (still o ≡ still_out b) × (still o' ≡ still_out b')
      → length cs ≡ one_if b
      → Moves b cs b' cs'
      → (length cs' ≡ one_if b' → Sound o')
      → Counts c users (xs ++ o ∷ ys)
      → Counts (give_back cs cs' c) users (xs ++ o' ∷ ys)
  call-Counts c users xs ys o o' b b' cs cs' (one, one', out, out') l mv sound' (sound, serves) =
      let (_, rest) = All-split xs ys o sound in
      let n = total still (xs ++ ys) in
      let k = total holds (xs ++ ys) in
      let before : Serves (users + (1 + k)) (still_out b + n) c =
        same_Serves c (omega (arith, one, total-split holds xs ys o))
          (omega (arith, out, total-split still xs ys o)) serves in
      let q : Alive (users + (1 + k)) (still_out b' + n) (give_back cs cs' c)
          × (length cs' ≡ one_if b') =
        call-Alive b b' cs cs' (users + (1 + k)) n c l mv (Serves-Alive before (omega arith)) in
      (
        All-insert xs ys o' (sound' q.1) rest,
        inl (
          omega (arith, one', total-split holds xs ys o'),
          recount _ (omega (arith, out', total-split still xs ys o'))
              (recount_refs _ (omega (arith, one', total-split holds xs ys o')) q.0),
        ),
      )

  pub result_call-Counts :
      (c : Client) (users : ℕ) (xs ys : List (Object Column Cell)) (o : Holder (Result Column))
      (r r' : Result Column)
      → o.handle ≡ some r
      → Moves r.released r.pool_releases r'.released r'.pool_releases
      → Counts c users (xs ++ result_object o ∷ ys)
      → Counts
          (give_back r.pool_releases r'.pool_releases c)
          users
          (xs ++ result_object (record o { handle = some r' }) ∷ ys)
  result_call-Counts c users xs ys o r r' e mv h =
      let (kept, l) = rw e at (All-split xs ys (result_object o) h.0).0 in
      call-Counts c users xs ys (result_object o) (result_object (record o { handle = some r' }))
        r.released r'.released r.pool_releases r'.pool_releases
        (ap one_if kept, ap one_if kept, ap (out_of (λ r. r.released)) e, refl) l mv
        (λ l'. (kept, l')) h

  pub batch_call-Counts :
      (c : Client) (users : ℕ) (xs ys : List (Object Column Cell)) (o : Holder (Batch Cell))
      (b b' : Batch Cell)
      → o.handle ≡ some b
      → Moves b.released b.pool_releases b'.released b'.pool_releases
      → Counts c users (xs ++ batch_object o ∷ ys)
      → Counts
          (give_back b.pool_releases b'.pool_releases c)
          users
          (xs ++ batch_object (record o { handle = some b' }) ∷ ys)
  batch_call-Counts c users xs ys o b b' e mv h =
      let (kept, l) = rw e at (All-split xs ys (batch_object o) h.0).0 in
      call-Counts c users xs ys (batch_object o) (batch_object (record o { handle = some b' }))
        b.released b'.released b.pool_releases b'.pool_releases
        (ap one_if kept, ap one_if kept, ap (out_of (λ b. b.released)) e, refl) l mv
        (λ l'. (kept, l')) h
