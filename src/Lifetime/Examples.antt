-- ===== src/Lifetime/Examples.antt =====
-- PHP code that makes a Client, runs a query and a batch on it, and lets go of everything.
use php_clickhouse.Base.{
  ℕ, ◌≡◌, refl, codes, true, false, List, [], ◌∷◌, ◌++◌, none, some, get_or, arith,
}
use php_clickhouse.Errors.{Outcome, returns}
use php_clickhouse.Connection.{fresh}
use php_clickhouse.Stream.{Block, Opening, block, finished, begun}
use php_clickhouse.Insert.{Library}
use php_clickhouse.Result
use php_clickhouse.Result.{Result}
use php_clickhouse.Batch
use php_clickhouse.Batch.{Batch}
use php_clickhouse.Lifetime.{
  Holder, new_client, pool_ensure, acquire, pool_acquire, start_result, start_query, client_query,
  start_batch, client_insert_batch, give_back, keep, obj_release,
}
use php_clickhouse.Lifetime.Events.{takes, gives, closings, Orderly}
use php_clickhouse.Lifetime.System.{
  result_object, batch_object, free_object, add_result, add_batch, System, opened, query,
  insert_batch, fetch, discard, wrapper_method, free, Reached, here, then_step,
}
use php_clickhouse.Lifetime.Order.{events-Orderly, referred-Alive, unreferred-Freed}

abbrev value_at : List ℕ → ℕ → Outcome ℕ
value_at c i = returns (get_or c i 0)

abbrev append_number : List ℕ → ℕ → Outcome (List ℕ)
append_number c x = returns (c ++ x ∷ [])

abbrev one_column : Library (List ℕ)
one_column = record {
  begins = λ calls. returns ([] ∷ []);
  answers = λ calls. returns tt;
  leaves = λ calls. none;
  clone_empty = λ c. [];
}

abbrev one_row : Block (List ℕ)
one_row = record { columns = (codes "n", 7 ∷ []) ∷ []; row_count = 1 }

abbrev answered : Opening (List ℕ)
answered = begun (block [] one_row (finished []))

-- The states after each step.
abbrev PhpCode : Type 0
PhpCode = System (List ℕ) ℕ

abbrev result_at_hand : Result (List ℕ)
result_at_hand = (Result.start fresh answered none).0

abbrev batch_at_hand : Batch ℕ
batch_at_hand = Batch.start fresh (codes "t") (codes "n" ∷ [])

abbrev queried : PhpCode
queried = record opened {
  client = (client_query true (some fresh) answered none new_client).0;
  objects = add_result (client_query true (some fresh) answered none new_client).1 [];
}

abbrev batched : PhpCode
batched = record queried {
  client =
      (client_insert_batch {Cell = ℕ} true (some fresh) (codes "t") (codes "n" ∷ [])
        queried.client).0;
  objects =
      add_batch
        (client_insert_batch true (some fresh) (codes "t") (codes "n" ∷ []) queried.client).1
        queried.objects;
}

abbrev with_result : Holder (Result (List ℕ))
with_result = record { handle = some result_at_hand; client_obj = true }

abbrev with_batch : Holder (Batch ℕ)
with_batch = record { handle = some batch_at_hand; client_obj = true }

abbrev fetched_result : Result (List ℕ)
fetched_result = (Result.next value_at result_at_hand none).0

abbrev after_fetch : Holder (Result (List ℕ))
after_fetch = record with_result { handle = some fetched_result }

abbrev fetched : PhpCode
fetched = record batched {
  client = give_back result_at_hand.pool_releases fetched_result.pool_releases batched.client;
  objects = batch_object with_batch ∷ result_object after_fetch ∷ [];
}

-- PHP code lets go of the Client first, then of the result and the batch.
abbrev discarded : PhpCode
discarded = record fetched { client = obj_release fetched.client; users = 0 }

abbrev one_freed : PhpCode
one_freed = record discarded {
  client = free_object {Cell = ℕ} (result_object after_fetch) discarded.client;
  objects = batch_object with_batch ∷ [];
}

abbrev all_freed : PhpCode
all_freed = record one_freed {
  client = free_object {Column = List ℕ} (batch_object with_batch) one_freed.client;
  objects = [];
}

fetched-Reached : Reached value_at append_number one_column fetched
unfolding client_query pool_acquire pool_ensure acquire start_query start_result give_back keep
    client_insert_batch start_batch Result.start Result.prime
fetched-Reached =
    then_step batched fetched
      (then_step queried batched
        (then_step opened queried here (query true (some fresh) answered none 0 refl))
        (insert_batch true (some fresh) (codes "t") (codes "n" ∷ []) 0 refl))
      (fetch (batch_object with_batch ∷ []) [] with_result result_at_hand none refl refl)

-- In between PHP code closes the pool by its wrapper.
one_freed-Reached : Reached value_at append_number one_column one_freed
one_freed-Reached =
    then_step discarded one_freed
      (then_step discarded discarded (then_step fetched discarded fetched-Reached (discard 0 refl))
        wrapper_method)
      (free (batch_object with_batch ∷ []) [] (result_object after_fetch) refl)

all_freed-Reached : Reached value_at append_number one_column all_freed
all_freed-Reached =
    then_step one_freed all_freed one_freed-Reached (free [] [] (batch_object with_batch) refl)

events-Orderly_example : Orderly all_freed.client.events
events-Orderly_example =
    events-Orderly value_at append_number one_column all_freed all_freed-Reached

referred-Alive_example : (one_freed.client.refs ≡ 1) × (closings one_freed.client.events ≡ 0)
referred-Alive_example =
    referred-Alive value_at append_number one_column one_freed one_freed-Reached (omega arith)

unreferred-Freed_example :
    (takes all_freed.client.events ≡ gives all_freed.client.events)
    × (all_freed.client.has_pool ≡ false)
    × (all_freed.client.has_wrapper ≡ false)
unreferred-Freed_example =
    unreferred-Freed value_at append_number one_column all_freed all_freed-Reached refl
