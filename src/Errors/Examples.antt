-- ===== src/Errors/Examples.antt =====
-- Exceptions that are written out.
use php_clickhouse.Base.{◌≡◌, ◌↔◌, ◌⊎◌, refl, codes, true}
use php_clickhouse.Base.Int.{pos}
use php_clickhouse.Errors.{
  Exception, PhpException, connection_error, engine_error, ce_ch_connection_exception,
  ce_ch_protocol_exception, exception_poisons_connection, translate_and_throw, translated, is_kind,
}
use php_clickhouse.Errors.Translation.{poisons_iff_class}

abbrev lost : Exception
lost = record { kind = connection_error; what = codes "lost"; code = pos 0 }

abbrev cancelled : PhpException
cancelled = record { cls = engine_error; message = codes "cancelled"; code = pos 0 }

abbrev connection_exception : PhpException
connection_exception = record {
  cls = ce_ch_connection_exception;
  message = codes "lost";
  code = pos 0;
}

poisons_iff_class_example : (exception_poisons_connection lost ≡ true) ↔ (
    (ce_ch_connection_exception ≡ ce_ch_protocol_exception)
    ⊎ (ce_ch_connection_exception ≡ ce_ch_connection_exception))
unfolding translate_and_throw translated is_kind
poisons_iff_class_example = poisons_iff_class lost connection_exception refl
