-- ===== src/Lifetime/Order.antt =====
-- The order of the calls that the extension makes of its pool, whatever PHP code does with a Client and its objects.
use php_clickhouse.Base.{
  ℕ, suc, ◌+◌, ◌<◌, ◌≡◌, inl, inr, refl, subst, false, List, [], Option, length, arith, Bytes,
}
use php_clickhouse.Errors.{Outcome, PhpException}
use php_clickhouse.Connection.{Connection}
use php_clickhouse.Connection.Moves.{one_more}
use php_clickhouse.Insert.{InsertRow, Library}
use php_clickhouse.Result.Moves.{next-Moves}
use php_clickhouse.Batch.Moves.{append-Moves, flush-Moves}
use php_clickhouse.Client.{insert}
use php_clickhouse.Client.Handover.{length-insert}
use php_clickhouse.Lifetime.{Client}
use php_clickhouse.Lifetime.Events.{
  takes, gives, closings, Orderly, Alive, recount, recount_refs, same_Serves, new_client-Alive,
  keep-Alive, pool_acquire-Alive, get_pool-Alive, give_back-Alive,
}
use php_clickhouse.Lifetime.Holders.{Serves-Alive, client_query-Gains, client_insert_batch-Gains}
use php_clickhouse.Lifetime.System.{
  System, insert_on, Step, query, insert_batch, insert_rows, pool_object, copy, discard,
  wrapper_method, construct_result, construct_batch, fetch, append_row, flush_rows, free, Reached,
  here, then_step,
}
use php_clickhouse.Lifetime.Counts.{
  total, holds, Counts, user-Alive, Alive-Counts, add_result-Counts, add_batch-Counts,
  discard-Counts, free-Counts, result_call-Counts, batch_call-Counts,
}

module _ {Column Value Cell : Type 0} (cell : Column → ℕ → Outcome Value)
    (append_value : Column → Cell → Outcome Column) (lib : Library Column) where
  insert_on-Alive :
      (table : Bytes) (columns : List Bytes) (rows : List (InsertRow Cell))
      (answer : Option Connection) (p : Option PhpException) (k n : ℕ) (c : Client)
      → Alive k (one_more answer n) c
      → Alive k n (insert_on cell append_value lib table columns rows answer p c)
  unfolding insert_on
  insert_on-Alive table columns rows answer p k n c a =
      let back = (insert append_value lib table columns rows answer p).0 in
      let l = length-insert append_value lib table columns rows answer p n in
      give_back-Alive [] back k (length back) n c (omega arith) (recount c (omega (arith, l)) a)

  Step-Counts :
      (s s' : System Column Cell)
      → Step cell append_value lib s s'
      → Counts s.client s.users s.objects
      → Counts s'.client s'.users s'.objects
  Step-Counts s _ (query made answer o p u e) h =
      add_result-Counts _ s.users u s.objects _ e h.0
        (client_query-Gains made answer o p _ _ s.client (user-Alive s u e h))
  Step-Counts s _ (insert_batch made answer table columns u e) h =
      add_batch-Counts _ s.users u s.objects _ e h.0
        (client_insert_batch-Gains Cell made answer table columns _ _ s.client (user-Alive s u e h))
  Step-Counts s _ (insert_rows made answer table columns rows p u e) h =
      Alive-Counts _ s.users u s.objects e h.0 (
        insert_on-Alive table columns rows _ p _ _ _
          (pool_acquire-Alive made answer _ _ s.client (user-Alive s u e h)))
  Step-Counts s _ (pool_object made wrapped u e) h =
      Alive-Counts _ s.users u s.objects e h.0
        (get_pool-Alive made wrapped _ _ s.client (user-Alive s u e h))
  Step-Counts s _ (copy u e) h =
      Alive-Counts _ (suc s.users) s.users s.objects refl h.0
        (recount_refs _ (omega arith) (keep-Alive _ _ s.client (user-Alive s u e h)))
  Step-Counts s _ (discard u e) h = discard-Counts s u e h
  Step-Counts s _ wrapper_method h = h
  Step-Counts s _ construct_result h =
      ((refl, h.0), same_Serves s.client (omega arith) (omega arith) h.1)
  Step-Counts s _ construct_batch h =
      ((refl, h.0), same_Serves s.client (omega arith) (omega arith) h.1)
  Step-Counts s _ (fetch xs ys o r p e f) h =
      result_call-Counts s.client s.users xs ys o r _ f (next-Moves cell r p)
        (subst (Counts s.client s.users) e h)
  Step-Counts s _ (append_row xs ys o b row e f) h =
      batch_call-Counts s.client s.users xs ys o b _ f (append-Moves row b)
        (subst (Counts s.client s.users) e h)
  Step-Counts s _ (flush_rows xs ys o b calls p e f) h =
      batch_call-Counts s.client s.users xs ys o b _ f (flush-Moves append_value lib b calls p)
        (subst (Counts s.client s.users) e h)
  Step-Counts s _ (free xs ys o e) h =
      free-Counts s.client s.users xs ys o (subst (Counts s.client s.users) e h)

  pub Reached-Counts :
      (s : System Column Cell) → Reached cell append_value lib s → Counts s.client s.users s.objects
  Reached-Counts _ here = (tt, inl (omega arith, new_client-Alive))
  Reached-Counts s' (then_step s _ r step) = Step-Counts s s' step (Reached-Counts s r)

  -- Whatever PHP code does with a Client and the objects it gets from it, the methods of the pool's wrapper included, the
  -- calls that the extension itself makes of the pool are in order: it takes and gives back connections and releases its
  -- wrapper only before it closes the pool, it gives a connection back only if it has one out, and it closes the pool at
  -- most once, when it has no connection out. What PHP code takes, gives back or closes by the wrapper is not counted.
  pub events-Orderly :
      (s : System Column Cell) → Reached cell append_value lib s → Orderly s.client.events
  events-Orderly s r = elim (Reached-Counts s r).1 [
    | inl (_, a) ↦ a.orderly
    | inr (_, _, f) ↦ f.orderly
  ]

  -- While PHP code or an object has a reference to the Client, the reference count is the number of these references
  -- and the extension has not closed the pool; PHP code may have, by the wrapper.
  pub referred-Alive :
      (s : System Column Cell)
      → Reached cell append_value lib s
      → 0 < s.users + total holds s.objects
      → (s.client.refs ≡ s.users + total holds s.objects) × (closings s.client.events ≡ 0)
  referred-Alive s r lt =
      let a = Serves-Alive (Reached-Counts s r).1 lt in (a.counted, a.not_closed)

  -- Once PHP code and the objects have no reference to the Client any more, the extension has given back every connection
  -- that it took, and the Client has let go of its pool and released its reference to the wrapper, which PHP code may
  -- still keep.
  pub unreferred-Freed :
      (s : System Column Cell)
      → Reached cell append_value lib s
      → s.users + total holds s.objects ≡ 0
      → (takes s.client.events ≡ gives s.client.events)
        × (s.client.has_pool ≡ false)
        × (s.client.has_wrapper ≡ false)
  unreferred-Freed s r z = elim (Reached-Counts s r).1 [
    | inl (lt, _) ↦ absurd (omega (arith, z))
    | inr (_, _, f) ↦ (f.all_back, f.no_pool, f.no_wrapper)
  ]
