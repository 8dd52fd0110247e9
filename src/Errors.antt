-- ===== src/Errors.antt =====
-- ch_exceptions.h and ch_exceptions.cpp: C++ exceptions and the PHP exceptions that they become; and
-- the classification of exceptions in ch_client.cpp. `EG(exception)`, the PHP exception that is
-- pending, is an argument and a result: `none` while there is none.
pub mod Translation
mod Examples
use php_clickhouse.Base.{
  String, codes, arith, Bytes, Bool, true, false, ◌||◌, Option, none, some, ◌≡◌, refl, ◌⊎◌, inl,
  inr, if◌then◌else◌,
}
use php_clickhouse.Base.Int.{ℤ, pos}

-- What the code distinguishes by `dynamic_cast`: sibling classes, so an exception has one kind.
-- `other_error` is any other `std::exception`.
pub data ExceptionKind : Type 0 where
  server_exception protocol_error compression_error assertion_error connection_error : ExceptionKind
  validation_error other_error : ExceptionKind

-- `code` is the answer of `GetCode`, which only a server exception is asked for.
pub record Exception : Type 0 where
  pub kind : ExceptionKind
  pub what : Bytes
  pub code : ℤ

-- What a call of C++ code does: it returns or it throws.
pub data Outcome {ℓ} (A : Type ℓ) : Type ℓ where
  returns : A → Outcome A
  throws : Exception → Outcome A

infixl 5 ◌>>=◌
abbrev pub ◌>>=◌ {ℓ κ} : {A : Type ℓ} {B : Type κ} → Outcome A → (A → Outcome B) → Outcome B
returns a >>= f = f a
throws e >>= f = throws e

-- throw clickhouse::ValidationError(what)
abbrev pub invalid {ℓ} : {A : Type ℓ} → String → Outcome A
invalid what = throws (record { kind = validation_error; what = codes what; code = pos 0 })

-- The classes under which the extension throws. `engine_error` is any class of the engine's own, such
-- as that of a cancelled coroutine.
pub data PhpClass : Type 0 where
  ce_ch_exception ce_ch_connection_exception ce_ch_server_exception : PhpClass
  ce_ch_protocol_exception ce_value_error engine_error : PhpClass

pub record PhpException : Type 0 where
  pub cls : PhpClass
  pub message : Bytes
  pub code : ℤ

-- dynamic_cast<const K *>(&e) != nullptr
unfoldable pub is_kind : ExceptionKind → ExceptionKind → Bool
is_kind server_exception server_exception = true
is_kind protocol_error protocol_error = true
is_kind compression_error compression_error = true
is_kind assertion_error assertion_error = true
is_kind connection_error connection_error = true
is_kind validation_error validation_error = true
is_kind _ _ = false

unfoldable pub exception_poisons_connection : Exception → Bool
unfolding is_kind
exception_poisons_connection e =
    is_kind connection_error e.kind
    || is_kind protocol_error e.kind
    || is_kind compression_error e.kind
    || is_kind assertion_error e.kind

-- The exception that is thrown when none is pending.
unfoldable pub translated : Exception → PhpException
unfolding is_kind
translated e =
    if is_kind server_exception e.kind
    then record { cls = ce_ch_server_exception; message = e.what; code = e.code }
    else if is_kind protocol_error e.kind
        || is_kind compression_error e.kind
        || is_kind assertion_error e.kind
    then record { cls = ce_ch_protocol_exception; message = e.what; code = pos 0 }
    else if is_kind connection_error e.kind
    then record { cls = ce_ch_connection_exception; message = e.what; code = pos 0 }
    else if is_kind validation_error e.kind
    then record { cls = ce_value_error; message = e.what; code = pos 0 }
    else record { cls = ce_ch_exception; message = e.what; code = pos 0 }

-- An exception that is pending already wins.
unfoldable pub translate_and_throw : Exception → Option PhpException → Option PhpException
unfolding translated
translate_and_throw e (some pending) = some pending
translate_and_throw e none = some (translated e)

-- The handler of `ch_client_connect`: what is not a server exception is a failure to connect.
connect_failure : Exception → PhpException
unfolding is_kind translated
connect_failure e =
    if is_kind server_exception e.kind
    then translated e
    else record { cls = ce_ch_connection_exception; message = e.what; code = pos 0 }

pub connect_failed : Exception → Option PhpException → Option PhpException
unfolding connect_failure
connect_failed e (some pending) = some pending
connect_failed e none = some (connect_failure e)

-- `EG(exception)` after a call of the library: what was pending before it stays, and else what the
-- call left pending.
abbrev pub pending_after : Option PhpException → Option PhpException → Option PhpException
pending_after (some x) thrown = some x
pending_after none thrown = thrown

-- To split on a computed outcome and keep the equation.
pub Outcome-cases {ℓ} :
    {A : Type ℓ} (o : Outcome A) → ((a : A) × (o ≡ returns a)) ⊎ ((e : Exception) × (o ≡ throws e))
Outcome-cases (returns a) = inl (a, refl)
Outcome-cases (throws e) = inr (e, refl)

-- What a chain that returns has done.
pub >>=-eq-returns {ℓ κ} :
    {A : Type ℓ} {B : Type κ} (o : Outcome A) (f : A → Outcome B) {b : B}
    → (o >>= f) ≡ returns b
    → (a : A) × (o ≡ returns a) × (f a ≡ returns b)
>>=-eq-returns (returns a) f h = (a, refl, h)
>>=-eq-returns (throws e) f h = cc

pub returns-eq {ℓ} : {A : Type ℓ} {a b : A} → returns a ≡ returns b → a ≡ b
returns-eq h = ground arith
