-- ===== src/Module.antt =====
-- `PHP_MINIT_FUNCTION` of clickhouse_async.cpp and the classes that it registers by the functions of
-- clickhouse_async_arginfo.h. The classes of the engine are a parameter.
pub mod Catching
mod Examples
use php_clickhouse.Base.{
  Bytes, codes, Bool, false, ◌||◌, bytes_eq, List, [], ◌∷◌, ◌++◌, Option, none, some,
}
use php_clickhouse.Errors.{
  PhpClass, ce_ch_exception, ce_ch_connection_exception, ce_ch_server_exception,
  ce_ch_protocol_exception, ce_value_error, engine_error,
}

-- A class with its name, and a class with its name and its parent.
pub data ClassEntry : Type 0 where
  class_entry : Bytes → ClassEntry
  child_entry : Bytes → ClassEntry → ClassEntry

-- zend_register_internal_class_with_flags, whose parent may be NULL
pub register_class : Bytes → Option ClassEntry → ClassEntry
register_class name none = class_entry name
register_class name (some parent) = child_entry name parent

abbrev pub class_name : Bytes → Bytes
class_name name = codes "TrueAsync\\ClickHouse\\" ++ name

-- The classes of the engine that the code uses; `other` is the class of any exception of the engine.
pub record EngineClasses : Type 0 where
  pub runtime_exception : ClassEntry
  pub value_error : ClassEntry
  pub other : ClassEntry
  pub iterator : ClassEntry

-- The functions `create_object` and `free_obj` of the classes with objects of their own.
pub data ObjectKind : Type 0 where
  batch_object client_object result_object : ObjectKind

pub record Handlers : Type 0 where
  pub create_object : Option ObjectKind
  pub free_obj : Option ObjectKind

-- A backed enum: its class, and its cases with their values.
pub record EnumEntry : Type 0 where
  pub entry : ClassEntry
  pub cases : List (Bytes × Bytes)

-- A class and the interfaces that it implements.
pub record Implementing : Type 0 where
  pub entry : ClassEntry
  pub interfaces : List ClassEntry

-- The type of a property of Summary, each public and readonly.
pub data PropertyType : Type 0 where
  long_type long_or_null double_type : PropertyType

-- A class with the properties that are declared for it.
pub record WithProperties : Type 0 where
  pub entry : ClassEntry
  pub properties : List (Bytes × PropertyType)

-- The class entries and handlers that MINIT sets.
pub record Globals : Type 0 where
  pub compression : Option EnumEntry
  pub open_strategy : Option EnumEntry
  pub exception : Option ClassEntry
  pub connection_exception : Option ClassEntry
  pub server_exception : Option ClassEntry
  pub protocol_exception : Option ClassEntry
  pub batch : Option ClassEntry
  pub batch_handlers : Handlers
  pub summary : Option WithProperties
  pub client : Option ClassEntry
  pub client_handlers : Handlers
  pub result : Option Implementing
  pub result_handlers : Handlers

abbrev pub handlers_of : ObjectKind → Handlers
handlers_of kind = record { create_object = some kind; free_obj = some kind }

pub register_compression : EnumEntry
register_compression = record {
  entry = class_entry (class_name (codes "Compression"));
  cases =
      (codes "None", codes "none") ∷ (codes "LZ4", codes "lz4") ∷ (codes "ZSTD", codes "zstd") ∷ [];
}

pub register_open_strategy : EnumEntry
register_open_strategy = record {
  entry = class_entry (class_name (codes "OpenStrategy"));
  cases =
      (codes "InOrder", codes "in_order")
      ∷ (codes "RoundRobin", codes "round_robin")
      ∷ (codes "Random", codes "random")
      ∷ [];
}

pub register_clickhouse_exception : Option ClassEntry → ClassEntry
unfolding register_class
register_clickhouse_exception parent =
    register_class (class_name (codes "ClickHouseException")) parent

pub register_connection_exception : Option ClassEntry → ClassEntry
unfolding register_class
register_connection_exception parent =
    register_class (class_name (codes "ConnectionException")) parent

pub register_server_exception : Option ClassEntry → ClassEntry
unfolding register_class
register_server_exception parent = register_class (class_name (codes "ServerException")) parent

pub register_protocol_exception : Option ClassEntry → ClassEntry
unfolding register_class
register_protocol_exception parent = register_class (class_name (codes "ProtocolException")) parent

pub register_batch : ClassEntry
unfolding register_class
register_batch = register_class (class_name (codes "Batch")) none

pub register_summary : WithProperties
unfolding register_class
register_summary = record {
  entry = register_class (class_name (codes "Summary")) none;
  properties =
      (codes "readRows", long_type)
      ∷ (codes "readBytes", long_type)
      ∷ (codes "writtenRows", long_type)
      ∷ (codes "writtenBytes", long_type)
      ∷ (codes "totalRowsToRead", long_type)
      ∷ (codes "rowsBeforeLimit", long_or_null)
      ∷ (codes "elapsed", double_type)
      ∷ [];
}

pub register_result : ClassEntry → Implementing
unfolding register_class
register_result iterator = record {
  entry = register_class (class_name (codes "Result")) none;
  interfaces = iterator ∷ [];
}

pub register_client : ClassEntry
unfolding register_class
register_client = register_class (class_name (codes "Client")) none

pub register_enums : Globals → Globals
unfolding register_compression register_open_strategy
register_enums g = record g {
  compression = some register_compression;
  open_strategy = some register_open_strategy;
}

-- The parents are read from the globals, one registration after the other.
pub register_exceptions : EngineClasses → Globals → Globals
unfolding register_clickhouse_exception register_connection_exception register_server_exception
    register_protocol_exception
register_exceptions engine g =
    let g1 = record g {
      exception = some (register_clickhouse_exception (some engine.runtime_exception));
    } in
    let g2 = record g1 {
      connection_exception = some (register_connection_exception g1.exception);
    } in
    let g3 = record g2 { server_exception = some (register_server_exception g2.exception) } in
    record g3 { protocol_exception = some (register_protocol_exception g3.exception) }

pub register_objects : EngineClasses → Globals → Globals
unfolding register_batch register_summary register_client register_result
register_objects engine g = record g {
  batch = some register_batch;
  batch_handlers = handlers_of batch_object;
  summary = some register_summary;
  client = some register_client;
  client_handlers = handlers_of client_object;
  result = some (register_result engine.iterator);
  result_handlers = handlers_of result_object;
}

pub minit : EngineClasses → Globals → Globals
unfolding register_enums register_exceptions register_objects
minit engine g = register_objects engine (register_exceptions engine (register_enums g))

-- The class under which the code throws an exception.
pub thrown_class : EngineClasses → Globals → PhpClass → Option ClassEntry
thrown_class engine g ce_ch_exception = g.exception
thrown_class engine g ce_ch_connection_exception = g.connection_exception
thrown_class engine g ce_ch_server_exception = g.server_exception
thrown_class engine g ce_ch_protocol_exception = g.protocol_exception
thrown_class engine g ce_value_error = some engine.value_error
thrown_class engine g engine_error = some engine.other
