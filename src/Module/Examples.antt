-- ===== src/Module/Examples.antt =====
-- A module that is initialised, and a lost connection.
use php_clickhouse.Base.{◌≡◌, refl, codes, true, none}
use php_clickhouse.Base.Int.{pos}
use php_clickhouse.Errors.{
  Exception, PhpException, connection_error, ce_ch_connection_exception, translate_and_throw,
  translated, is_kind,
}
use php_clickhouse.Module.{
  class_entry, child_entry, EngineClasses, Handlers, Globals, minit, thrown_class,
}
use php_clickhouse.Module.Catching.{
  instance_of, catches, clickhouse, connection, server, protocol, Foreign, catches-minit,
}

abbrev engine : EngineClasses
engine = record {
  runtime_exception = child_entry (codes "RuntimeException") (class_entry (codes "Exception"));
  value_error = child_entry (codes "ValueError") (class_entry (codes "Error"));
  other = class_entry (codes "Error");
  iterator = class_entry (codes "Iterator");
}

abbrev no_handlers : Handlers
no_handlers = record { create_object = none; free_obj = none }

-- Before MINIT.
abbrev cleared : Globals
cleared = record {
  compression = none;
  open_strategy = none;
  exception = none;
  connection_exception = none;
  server_exception = none;
  protocol_exception = none;
  batch = none;
  batch_handlers = no_handlers;
  summary = none;
  client = none;
  client_handlers = no_handlers;
  result = none;
  result_handlers = no_handlers;
}

runtime_exception-Foreign : Foreign engine.runtime_exception
unfolding instance_of
runtime_exception-Foreign clickhouse = refl
runtime_exception-Foreign connection = refl
runtime_exception-Foreign server = refl
runtime_exception-Foreign protocol = refl

value_error-Foreign : Foreign engine.value_error
unfolding instance_of
value_error-Foreign clickhouse = refl
value_error-Foreign connection = refl
value_error-Foreign server = refl
value_error-Foreign protocol = refl

abbrev lost : Exception
lost = record { kind = connection_error; what = codes "lost"; code = pos 0 }

abbrev thrown : PhpException
thrown = record { cls = ce_ch_connection_exception; message = codes "lost"; code = pos 0 }

catches-minit_example :
    catches
      (codes "TrueAsync\\ClickHouse\\ClickHouseException")
      (thrown_class engine (minit engine cleared) ce_ch_connection_exception)
    ≡ true
unfolding translate_and_throw translated is_kind
catches-minit_example =
    catches-minit engine cleared clickhouse lost thrown runtime_exception-Foreign
      value_error-Foreign refl
