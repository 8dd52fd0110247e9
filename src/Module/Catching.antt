-- ===== src/Module/Catching.antt =====
-- Which exceptions of the client library a `catch` of PHP code catches.
use php_clickhouse.Base.{
  ◌≡◌, refl, subst, Bytes, codes, Bool, true, false, ◌||◌, bytes_eq, Option, none, some, arith,
}
use php_clickhouse.Base.Int.{ℤ}
use php_clickhouse.Errors.{
  Exception, ExceptionKind, server_exception, protocol_error, compression_error, assertion_error,
  connection_error, validation_error, other_error, PhpException, is_kind, translated,
  translate_and_throw,
}
use php_clickhouse.Module.{
  ClassEntry, class_entry, child_entry, register_class, class_name, EngineClasses, Globals,
  register_enums, register_clickhouse_exception, register_connection_exception,
  register_server_exception, register_protocol_exception, register_exceptions, register_objects,
  minit, thrown_class,
}

-- `catch` catches an exception whose class, or a parent of it, has the name.
unfoldable pub instance_of : Bytes → ClassEntry → Bool
instance_of name (class_entry n) = bytes_eq n name
instance_of name (child_entry n parent) = bytes_eq n name || instance_of name parent

pub catches : Bytes → Option ClassEntry → Bool
unfolding instance_of
catches name none = false
catches name (some entry) = instance_of name entry

-- The four classes of the extension.
pub data Clause : Type 0 where
  clickhouse connection server protocol : Clause

abbrev pub clause_name : Clause → Bytes
clause_name clickhouse = class_name (codes "ClickHouseException")
clause_name connection = class_name (codes "ConnectionException")
clause_name server = class_name (codes "ServerException")
clause_name protocol = class_name (codes "ProtocolException")

-- What each of them is for.
abbrev pub is_for : Clause → ExceptionKind → Bool
is_for clickhouse validation_error = false
is_for clickhouse _ = true
is_for connection connection_error = true
is_for connection _ = false
is_for server server_exception = true
is_for server _ = false
is_for protocol protocol_error = true
is_for protocol compression_error = true
is_for protocol assertion_error = true
is_for protocol _ = false

-- The classes of the engine are not of the extension.
abbrev pub Foreign : ClassEntry → Type 0
Foreign entry = (c : Clause) → instance_of (clause_name c) entry ≡ false

catches-kind :
    (engine : EngineClasses) (g : Globals) (c : Clause) (k : ExceptionKind) (what : Bytes)
    (code : ℤ)
    → Foreign engine.runtime_exception
    → Foreign engine.value_error
    → catches (clause_name c) (
        thrown_class engine
          (minit engine g)
          (translated (record { kind = k; what = what; code = code })).cls)
      ≡ is_for c k
unfolding translated is_kind catches thrown_class minit register_class register_enums
    register_exceptions register_objects instance_of register_clickhouse_exception
    register_connection_exception register_server_exception register_protocol_exception
catches-kind engine g clickhouse server_exception what code run value = refl
catches-kind engine g connection server_exception what code run value = run connection
catches-kind engine g server server_exception what code run value = refl
catches-kind engine g protocol server_exception what code run value = run protocol
catches-kind engine g clickhouse protocol_error what code run value = refl
catches-kind engine g connection protocol_error what code run value = run connection
catches-kind engine g server protocol_error what code run value = run server
catches-kind engine g protocol protocol_error what code run value = refl
catches-kind engine g clickhouse compression_error what code run value = refl
catches-kind engine g connection compression_error what code run value = run connection
catches-kind engine g server compression_error what code run value = run server
catches-kind engine g protocol compression_error what code run value = refl
catches-kind engine g clickhouse assertion_error what code run value = refl
catches-kind engine g connection assertion_error what code run value = run connection
catches-kind engine g server assertion_error what code run value = run server
catches-kind engine g protocol assertion_error what code run value = refl
catches-kind engine g clickhouse connection_error what code run value = refl
catches-kind engine g connection connection_error what code run value = refl
catches-kind engine g server connection_error what code run value = run server
catches-kind engine g protocol connection_error what code run value = run protocol
catches-kind engine g clickhouse validation_error what code run value = value clickhouse
catches-kind engine g connection validation_error what code run value = value connection
catches-kind engine g server validation_error what code run value = value server
catches-kind engine g protocol validation_error what code run value = value protocol
catches-kind engine g clickhouse other_error what code run value = refl
catches-kind engine g connection other_error what code run value = run connection
catches-kind engine g server other_error what code run value = run server
catches-kind engine g protocol other_error what code run value = run protocol

-- Once the module is initialised, a `catch` of ClickHouseException catches every exception of the client library but a
-- ValidationError, and those of its three children catch the exceptions of a connection, of the server, and of the
-- protocol, its compression and its assertions; where no exception was pending.
pub catches-minit :
    (engine : EngineClasses) (g : Globals) (c : Clause) (e : Exception) (x : PhpException)
    → Foreign engine.runtime_exception
    → Foreign engine.value_error
    → translate_and_throw e none ≡ some x
    → catches (clause_name c) (thrown_class engine (minit engine g) x.cls) ≡ is_for c e.kind
unfolding translate_and_throw
catches-minit engine g c e x run value h =
    let this : translated e ≡ x = ground arith in
    subst
      (λ y. catches (clause_name c) (thrown_class engine (minit engine g) y.cls) ≡ is_for c e.kind)
      this (catches-kind engine g c e.kind e.what e.code run value)
