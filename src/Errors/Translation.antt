-- ===== src/Errors/Translation.antt =====
-- Which PHP exception a C++ exception becomes.
use php_clickhouse.Base.{◌≡◌, ◌≢◌, ◌↔◌, ◌⊎◌, true, Option, none, some, arith, refl}
use php_clickhouse.Base.Int.{pos}
use php_clickhouse.Errors.{
  Exception, server_exception, PhpException, ce_ch_connection_exception, ce_ch_server_exception,
  ce_ch_protocol_exception, is_kind, exception_poisons_connection, translated, translate_and_throw,
  connect_failed, connect_failure,
}

-- An exception that is pending is not overwritten, by the translation of another or by a failed
-- connect; and where none is pending, one is afterwards.
pub pending_wins :
    (e : Exception) (pending : PhpException)
    → (translate_and_throw e (some pending) ≡ some pending)
      × (connect_failed e (some pending) ≡ some pending)
      × (translate_and_throw e none ≢ none)
      × (connect_failed e none ≢ none)
unfolding translate_and_throw connect_failed
pending_wins e pending = (refl, refl, λ h. cc, λ h. cc)

pub translate-ne-none : (e : Exception) (p : Option PhpException) → translate_and_throw e p ≢ none
unfolding translate_and_throw
translate-ne-none e none = λ h. cc
translate-ne-none e (some x) = λ h. cc

-- Where no exception is pending, ch_exception_poisons_connection says yes exactly to the exceptions that
-- ch_translate_and_throw makes a ProtocolException or a ConnectionException.
pub poisons_iff_class :
    (e : Exception) (x : PhpException)
    → translate_and_throw e none ≡ some x
    → (exception_poisons_connection e ≡ true)
      ↔ ((x.cls ≡ ce_ch_protocol_exception) ⊎ (x.cls ≡ ce_ch_connection_exception))
unfolding translate_and_throw translated exception_poisons_connection is_kind
poisons_iff_class e x h = ground arith

-- Where no exception is pending, the message is kept; a ServerException comes from a server
-- exception and from nothing else; and the code is 0 or that of a server exception.
pub translate_keeps :
    (e : Exception) (x : PhpException)
    → translate_and_throw e none ≡ some x
    → (x.message ≡ e.what)
      × ((x.cls ≡ ce_ch_server_exception) ↔ (e.kind ≡ server_exception))
      × ((x.code ≡ pos 0) ⊎ ((e.kind ≡ server_exception) × (x.code ≡ e.code)))
unfolding translate_and_throw translated is_kind
translate_keeps e x h = ground arith

-- The exception of a connection that cannot be opened, where none is pending.
pub connect_failed-class :
    (e : Exception)
    → (x : PhpException) × (connect_failed e none ≡ some x)
      × (x.message ≡ e.what)
      × (((x.cls ≡ ce_ch_server_exception) × (e.kind ≡ server_exception))
          ⊎ ((x.cls ≡ ce_ch_connection_exception) × (e.kind ≢ server_exception)))
unfolding connect_failed connect_failure translated is_kind
connect_failed-class e = (connect_failure e, refl, ground arith, ground arith)
