-- ===== src/Client.antt =====
-- `Client::query`, `Client::insert` and `Client::insertBatch` of clickhouse_async.cpp, with
-- `ch_client_insert` of ch_client.cpp: a connection is acquired from the pool and handed over, or given
-- back. `acquired` stands for what `ZEND_ASYNC_POOL_ACQUIRE` does: a connection, or a failure that leaves
-- a PHP exception pending.
pub mod Handover
mod Examples
use php_clickhouse.Base.{Bytes, Bool, true, false, List, [], ◌∷◌, ◌++◌, Option, none, some}
use php_clickhouse.Errors.{Outcome, PhpException}
use php_clickhouse.Connection.{Connection, mark_broken}
use php_clickhouse.Stream.{Opening}
use php_clickhouse.Insert.{InsertRow, Library, Call, Wire, send_block, build_insert_statement}
use php_clickhouse.Result
use php_clickhouse.Result.{Result}
use php_clickhouse.ResultObject.{ResultObject, create}
use php_clickhouse.Batch
use php_clickhouse.Batch.{Batch}

module _ {Column Cell : Type 0} (append_value : Column → Cell → Outcome Column)
    (lib : Library Column) where
  -- `broken` of the wire is the connection's own flag.
  pub client_insert :
      Bytes
      → List Bytes
      → List (InsertRow Cell)
      → Connection
      → Option PhpException
      → Wire Column × Bool
  client_insert table columns rows conn p =
      send_block append_value lib (build_insert_statement table columns) columns rows
        (record { calls = []; broken = conn.broken; pending = p })

  -- The connections that are given back, each as it is then; the calls of the library; and the pending
  -- exception.
  pub insert :
      Bytes
      → List Bytes
      → List (InsertRow Cell)
      → Option Connection
      → Option PhpException
      → List Connection × List (Call Column) × Option PhpException
  insert table columns rows none p = ([], [], p)
  insert table columns rows (some conn) p =
      let (w, ok) = client_insert table columns rows conn p in
      (record conn { broken = w.broken } ∷ [], w.calls, w.pending)

module _ {Column Value : Type 0} where
  -- The object that `query` returns, or none where it throws; and the result as the query left it.
  wrapped :
      Result.Reply Column Bool
      → Option (ResultObject Column Value) × Option (Result Column) × Option PhpException
  wrapped (r, true, p) = (some (create (some r)), some r, p)
  wrapped (r, false, p) = (none, some r, p)

  pub query :
      Option Connection
      → Opening Column
      → Option PhpException
      → Option (ResultObject Column Value) × Option (Result Column) × Option PhpException
  unfolding wrapped
  query none opening p = (none, none, p)
  query (some conn) opening p = wrapped (Result.start conn opening p)

pub insert_batch : {Cell : Type 0} → Bytes → List Bytes → Option Connection → Option (Batch Cell)
insert_batch table columns none = none
insert_batch table columns (some conn) = some (Batch.start conn table columns)
