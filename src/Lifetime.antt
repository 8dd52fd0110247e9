-- ===== src/Lifetime.antt =====
-- The PHP objects of clickhouse_async.cpp and the pool that they share: a Client owns the pool, and a Result or a
-- Batch with a connection keeps its Client alive. `refs` is the reference count of the Client object. What the
-- engine's pool answers, a connection or a failure, is an argument.
pub mod Events
pub mod Holders
pub mod System
pub mod Counts
pub mod Order
mod Examples
use php_clickhouse.Base.{
  ℕ, zero, suc, ◌+◌, ◌-◌, Bytes, codes, Bool, true, false, List, [], ◌∷◌, ◌++◌, Option, none, some,
  ◌==◌, if◌then◌else◌, length, drop, map,
}
use php_clickhouse.Base.Int.{pos}
use php_clickhouse.Errors.{Outcome, PhpException, ce_ch_exception, ce_ch_connection_exception}
use php_clickhouse.Connection.{Connection}
use php_clickhouse.Stream.{Opening}
use php_clickhouse.Result
use php_clickhouse.Result.{Result, Row}
use php_clickhouse.Batch
use php_clickhouse.Batch.{Batch}

-- What is done to the pool: a connection is taken or given back, it is closed, and its event is released; and the
-- release of the wrapper that getPool made.
pub data Event : Type 0 where
  acquired : Event
  gave_back : Connection → Event
  pool_closed pool_released wrapper_released : Event

-- `events` has the newest first.
pub record Client : Type 0 where
  pub has_pool : Bool
  pub has_wrapper : Bool
  pub refs : ℕ
  pub events : List Event

-- ch_client_object_create, with the reference that `new` returns.
abbrev pub new_client : Client
new_client = record { has_pool = false; has_wrapper = false; refs = 1; events = [] }

pub release_wrapper : Client → Client
release_wrapper c =
    if c.has_wrapper
    then record c { has_wrapper = false; events = wrapper_released ∷ c.events }
    else c

pub close_pool : Client → Client
close_pool c =
    if c.has_pool
    then record c { has_pool = false; events = pool_released ∷ pool_closed ∷ c.events }
    else c

-- The wrapper goes before the pool that it points at.
pub client_object_free : Client → Client
client_object_free c = close_pool (release_wrapper c)

-- OBJ_RELEASE of the Client: the last reference frees it.
pub obj_release : Client → Client
obj_release c =
    if c.refs == 1
    then client_object_free (record c { refs = 0 })
    else record c { refs = c.refs - 1 }

-- ch_pool_ensure: `made` is whether ZEND_ASYNC_NEW_POOL answers a pool.
pub pool_ensure : Bool → Client → Client × Bool
pool_ensure made c =
    if c.has_pool
    then (c, true)
    else if made
    then (record c { has_pool = true }, true)
    else (c, false)

-- The exception of a pool that cannot be made: one that is pending stays.
pub pool_failure : Option PhpException → Option PhpException
pool_failure (some x) = some x
pool_failure none = some (record {
  cls = ce_ch_connection_exception;
  message = codes "failed to create connection pool";
  code = pos 0;
})

-- ZEND_ASYNC_POOL_ACQUIRE answers a connection or fails.
pub acquire : Option Connection → Client → Client × Option Connection
acquire none c = (c, none)
acquire (some conn) c = (record c { events = acquired ∷ c.events }, some conn)

-- ch_pool_acquire
pub pool_acquire : Bool → Option Connection → Client → Client × Option Connection
pool_acquire made answer c =
    let (c', there) = pool_ensure made c in if there then acquire answer c' else (c', none)

-- Client::getPool: `wrapped` is whether the engine makes a wrapper.
pub make_wrapper : Bool → Client → Client × Bool
make_wrapper wrapped c =
    if c.has_wrapper
    then (c, true)
    else if wrapped
    then (record c { has_wrapper = true }, true)
    else (c, false)

pub get_pool : Bool → Bool → Client → Client × Bool
get_pool made wrapped c =
    let (c', there) = pool_ensure made c in if there then make_wrapper wrapped c' else (c', false)

-- The connections that a call gave back: those beyond the ones before it.
pub give_back : List Connection → List Connection → Client → Client
give_back before after c = record c {
  events = map gave_back (drop (length before) after) ++ c.events;
}

pub keep : Client → Client
keep c = record c { refs = c.refs + 1 }

-- `ch_result_object` and `ch_batch_object`: the handle, and whether the object holds a reference to its Client.
pub record Holder (Handle : Type 0) : Type 0 where
  pub handle : Option Handle
  pub client_obj : Bool

module _ {Handle : Type 0} (free : Handle → Handle) (releases : Handle → List Connection) where
  pub free_handle : Option Handle → Client → Client
  free_handle none c = c
  free_handle (some h) c = give_back (releases h) (releases (free h)) c

  -- The connection is released before the reference to the Client is dropped.
  pub object_free : Holder Handle → Client → Client
  object_free o c = let c' = free_handle o.handle c in if o.client_obj then obj_release c' else c'

pub result_object_free : {Column : Type 0} → Holder (Result Column) → Client → Client
result_object_free = object_free Result.free (λ r. r.pool_releases)

pub batch_object_free : {Cell : Type 0} → Holder (Batch Cell) → Client → Client
batch_object_free = object_free Batch.free (λ b. b.pool_releases)

-- Client::query once a connection is there: the holder, or none where the query throws.
pub start_result :
    {Column : Type 0} → Result.Reply Column Bool → Client → Client × Option (Holder (Result Column))
start_result (r, true, p) c =
    (keep (give_back [] r.pool_releases c), some (record { handle = some r; client_obj = true }))
start_result (r, false, p) c = (give_back [] r.pool_releases c, none)

pub start_query :
    {Column : Type 0}
    → Option Connection
    → Opening Column
    → Option PhpException
    → Client
    → Client × Option (Holder (Result Column))
start_query none opening p c = (c, none)
start_query (some conn) opening p c = start_result (Result.start conn opening p) c

pub client_query :
    {Column : Type 0}
    → Bool
    → Option Connection
    → Opening Column
    → Option PhpException
    → Client
    → Client × Option (Holder (Result Column))
client_query made answer opening p c =
    let (c', conn) = pool_acquire made answer c in start_query conn opening p c'

pub start_batch :
    {Cell : Type 0}
    → Bytes
    → List Bytes
    → Option Connection
    → Client
    → Client × Option (Holder (Batch Cell))
start_batch table columns none c = (c, none)
start_batch table columns (some conn) c =
    (keep c, some (record { handle = some (Batch.start conn table columns); client_obj = true }))

pub client_insert_batch :
    {Cell : Type 0}
    → Bool
    → Option Connection
    → Bytes
    → List Bytes
    → Client
    → Client × Option (Holder (Batch Cell))
client_insert_batch made answer table columns c =
    let (c', conn) = pool_acquire made answer c in start_batch table columns conn c'
