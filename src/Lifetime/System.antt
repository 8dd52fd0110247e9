-- ===== src/Lifetime/System.antt =====
-- A Client, the Result and Batch objects that PHP code got from it, and what PHP code can do with them. `users` counts
-- the references to the Client that PHP code holds itself. The events of the Client are the calls that the extension makes
-- of its pool, not those that PHP code makes of the wrapper. Freeing an object stands for the end of its last reference.
use php_clickhouse.Base.{ℕ, suc, ◌≡◌, Bytes, Bool, false, List, [], ◌∷◌, ◌++◌, Option, none, some}
use php_clickhouse.Errors.{Outcome, PhpException}
use php_clickhouse.Connection.{Connection}
use php_clickhouse.Stream.{Opening}
use php_clickhouse.Insert.{InsertRow, Library, Call}
use php_clickhouse.Result
use php_clickhouse.Result.{Result}
use php_clickhouse.Batch
use php_clickhouse.Batch.{Batch}
use php_clickhouse.Client.{insert}
use php_clickhouse.Lifetime.{
  Client, new_client, obj_release, pool_acquire, get_pool, give_back, keep, Holder,
  result_object_free, batch_object_free, client_query, client_insert_batch,
}

pub data Object (Column Cell : Type 0) : Type 0 where
  result_object : Holder (Result Column) → Object Column Cell
  batch_object : Holder (Batch Cell) → Object Column Cell

module _ {Column Cell : Type 0} where
  unfoldable pub free_object : Object Column Cell → Client → Client
  free_object (result_object o) c = result_object_free o c
  free_object (batch_object o) c = batch_object_free o c

  abbrev pub add_result :
      Option (Holder (Result Column)) → List (Object Column Cell) → List (Object Column Cell)
  add_result none os = os
  add_result (some o) os = result_object o ∷ os

  abbrev pub add_batch :
      Option (Holder (Batch Cell)) → List (Object Column Cell) → List (Object Column Cell)
  add_batch none os = os
  add_batch (some o) os = batch_object o ∷ os

-- The objects from the newest to the oldest.
pub record System (Column Cell : Type 0) : Type 0 where
  pub client : Client
  pub users : ℕ
  pub objects : List (Object Column Cell)

-- `$client = new Client(...)`
abbrev pub opened : {Column Cell : Type 0} → System Column Cell
opened = record { client = new_client; users = 1; objects = [] }

-- An object made with `new`, without a handle and without a Client.
abbrev pub bare : {Handle : Type 0} → Holder Handle
bare = record { handle = none; client_obj = false }

module _ {Column Value Cell : Type 0} (cell : Column → ℕ → Outcome Value)
    (append_value : Column → Cell → Outcome Column) (lib : Library Column) where
  -- Client::insert on the shared Client.
  unfoldable pub insert_on :
      Bytes
      → List Bytes
      → List (InsertRow Cell)
      → Option Connection
      → Option PhpException
      → Client
      → Client
  insert_on table columns rows conn p c =
      give_back [] (insert append_value lib table columns rows conn p).0 c

  -- One step of PHP code. A method of the Client needs a reference to it.
  pub data Step (s : System Column Cell) : System Column Cell → Type 0 where
    query :
        (made : Bool) (answer : Option Connection) (o : Opening Column) (p : Option PhpException)
        (u : ℕ)
        → s.users ≡ suc u
        → Step s (record s {
          client = (client_query made answer o p s.client).0;
          objects = add_result (client_query made answer o p s.client).1 s.objects;
        })
    insert_batch :
        (made : Bool) (answer : Option Connection) (table : Bytes) (columns : List Bytes) (u : ℕ)
        → s.users ≡ suc u
        → Step s (record s {
          client = (client_insert_batch {Cell = Cell} made answer table columns s.client).0;
          objects = add_batch (client_insert_batch made answer table columns s.client).1 s.objects;
        })
    insert_rows :
        (made : Bool) (answer : Option Connection) (table : Bytes) (columns : List Bytes)
        (rows : List (InsertRow Cell)) (p : Option PhpException) (u : ℕ)
        → s.users ≡ suc u
        → Step s (record s {
          client =
              let (c, conn) = pool_acquire made answer s.client in
              insert_on table columns rows conn p c;
        })
    pool_object :
        (made wrapped : Bool) (u : ℕ)
        → s.users ≡ suc u
        → Step s (record s { client = (get_pool made wrapped s.client).0 })
    copy :
        (u : ℕ)
        → s.users ≡ suc u
        → Step s (record s { client = keep s.client; users = suc s.users })
    discard :
        (u : ℕ) → s.users ≡ suc u → Step s (record s { client = obj_release s.client; users = u })
    -- A method of the wrapper that getPool gives, such as close, acquire or release, at any time: code of the engine,
    -- which leaves the Client and its objects as they are. What the pool answers afterwards is an argument of the
    -- later steps.
    wrapper_method : Step s s
    construct_result : Step s (record s { objects = result_object bare ∷ s.objects })
    construct_batch : Step s (record s { objects = batch_object bare ∷ s.objects })
    fetch :
        (xs ys : List (Object Column Cell)) (o : Holder (Result Column)) (r : Result Column)
        (p : Option PhpException)
        → s.objects ≡ xs ++ result_object o ∷ ys
        → o.handle ≡ some r
        → Step s (record s {
          client = give_back r.pool_releases (Result.next cell r p).0.pool_releases s.client;
          objects = xs ++ result_object (record o { handle = some (Result.next cell r p).0 }) ∷ ys;
        })
    append_row :
        (xs ys : List (Object Column Cell)) (o : Holder (Batch Cell)) (b : Batch Cell)
        (row : InsertRow Cell)
        → s.objects ≡ xs ++ batch_object o ∷ ys
        → o.handle ≡ some b
        → Step s (record s {
          client = give_back b.pool_releases (Batch.append row b).0.pool_releases s.client;
          objects = xs ++ batch_object (record o { handle = some (Batch.append row b).0 }) ∷ ys;
        })
    flush_rows :
        (xs ys : List (Object Column Cell)) (o : Holder (Batch Cell)) (b : Batch Cell)
        (calls : List (Call Column)) (p : Option PhpException)
        → s.objects ≡ xs ++ batch_object o ∷ ys
        → o.handle ≡ some b
        → Step s (record s {
          client =
              give_back b.pool_releases
                (Batch.flush append_value lib b calls p).0.pool_releases
                s.client;
          objects =
              xs
              ++ batch_object
                  (record o { handle = some (Batch.flush append_value lib b calls p).0 })
                ∷ ys;
        })
    free :
        (xs ys : List (Object Column Cell)) (o : Object Column Cell)
        → s.objects ≡ xs ++ o ∷ ys
        → Step s (record s { client = free_object o s.client; objects = xs ++ ys })

  -- What PHP code can reach from `new Client`.
  pub data Reached : System Column Cell → Type 0 where
    here : Reached opened
    then_step : (s s' : System Column Cell) → Reached s → Step s s' → Reached s'
