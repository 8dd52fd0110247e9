-- ===== src/Column/Batched.antt =====
-- A batch that is filled and flushed, and fetchAll on a query that answers the blocks that it sent.
use php_clickhouse.Connection.{Connection}
use php_clickhouse.Stream.{Block}
use php_clickhouse.ResultObject.{ResultObject}
