-- ===== src/Stream.antt =====
-- What the client library answers while a query runs: the calls of `NextBlock` one after another, each
-- with the progress and profile packets whose callbacks it makes before it returns. The library and
-- the server are not part of the program, so their answers are input: a finite sequence of calls. A
-- server that sends blocks for ever is not modelled.
use php_clickhouse.Base.{ℕ, Bytes, Bool, List, Option}
use php_clickhouse.Errors.{Exception, PhpException}

pub record Progress : Type 0 where
  pub rows : ℕ
  pub bytes : ℕ
  pub total_rows : ℕ
  pub written_rows : ℕ
  pub written_bytes : ℕ

pub record Profile : Type 0 where
  pub rows_before_limit : ℕ
  pub calculated_rows_before_limit : Bool

pub data Packet : Type 0 where
  progress : Progress → Packet
  profile : Profile → Packet

-- Named columns, with as many rows each as `row_count` says.
pub record Block (Column : Type 0) : Type 0 where
  pub columns : List (Bytes × Column)
  pub row_count : ℕ

-- `fails` may leave a PHP exception pending, such as that of a cancelled coroutine. After `finished`
-- and `fails` nothing is left that a result pulls: of `fails` this says nothing about what the server
-- may still have sent on the connection.
pub data Stream (Column : Type 0) : Type 0 where
  block : List Packet → Block Column → Stream Column → Stream Column
  finished : List Packet → Stream Column
  fails : List Packet → Option PhpException → Exception → Stream Column
  exhausted : Stream Column

-- What `BeginExecute` does: it throws, or the query runs.
pub data Opening (Column : Type 0) : Type 0 where
  begun : Stream Column → Opening Column
  refused : Option PhpException → Exception → Opening Column
