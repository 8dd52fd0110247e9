-- ===== src/Column/Scalars.antt =====
-- What the switches of ch_append_value and ch_column_value_to_zval make of a value without parts.
use php_clickhouse.Base.{◌^◌, ◌<◌, ◌≡◌, refl, subst, Bytes, Bool, false, arith}
use php_clickhouse.Base.Int.{ℤ, to_signed, to_unsigned}
use php_clickhouse.Errors.{returns, returns-eq}
use php_clickhouse.Php.{Zval, Engine}
use php_clickhouse.Codec.Uuid.Bounds.{parse_uuid-lt}
use php_clickhouse.Column.{Width, w8, w16, w32, w64, bits, Code, Input, Columns}
use php_clickhouse.Column.Append.{input_of}
use php_clickhouse.Column.Read.{unread, uint64_value, date_value, output_value}
use php_clickhouse.Column.Stored.{
  PlainCode, of_int, of_uint, of_float64, of_boolean, of_string, of_datetime64, of_uuid, Fits,
  same_cell, stored_scalar,
}

-- What is documented of the client library's columns: the row that was appended last holds what was appended, where
-- it fits the column's type.
pub record KeepsCells {Column : Type 0} (lib : Columns Column) : Type 0 where
  pub append_cell :
      (code : Code) (p : PlainCode code) (d : Input code) (c c' : Column)
      → Fits p d
      → lib.append code d c ≡ returns c'
      → lib.at code c' (lib.size c) ≡ returns (same_cell p d)
  pub flag_cell : (b : Bool) (c : Column) → lib.is_null_at (lib.append_flag b c) (lib.size c) ≡ b
  pub array_cell :
      (e c c' : Column)
      → lib.append_as_column e c ≡ returns c'
      → lib.column_at c' (lib.size c) ≡ returns e

to_unsigned-lt : (w : Width) (z : ℤ) → to_unsigned (bits w) z < 2 ^ bits w
unfolding to_unsigned
to_unsigned-lt w8 z = ground arith
to_unsigned-lt w16 z = ground arith
to_unsigned-lt w32 z = ground arith
to_unsigned-lt w64 z = ground arith

to_signed-Fits : (w : Width) (z : ℤ) → Fits (of_int w) (to_signed (bits w) z)
unfolding Fits to_signed
to_signed-Fits w8 z = ground (arith, to_unsigned-lt w8 z)
to_signed-Fits w16 z = ground (arith, to_unsigned-lt w16 z)
to_signed-Fits w32 z = ground (arith, to_unsigned-lt w32 z)
to_signed-Fits w64 z = ground (arith, to_unsigned-lt w64 z)

module _ (php : Engine) (show : ℤ → Bytes) where
  -- What the switch of `ch_append_value` makes of a value fits the column and is read as the value that
  -- `stored_scalar` says.
  abbrev pub Converts : (code : Code) → PlainCode code → Zval → Input code → Type 0
  Converts code p v d =
      Fits p d
      × (unread code ≡ false)
      × (output_value php show code (same_cell p d) ≡ stored_scalar php p v)

  pub input_of-Converts :
      (code : Code) (p : PlainCode code) (type_name : Bytes) (v : Zval) (d : Input code)
      → input_of php code type_name v ≡ returns d
      → Converts code p v d
  unfolding input_of Fits same_cell output_value stored_scalar unread uint64_value date_value
  input_of-Converts _ (of_int w) type_name v d h =
      subst (Converts _ (of_int w) v) (returns-eq h) (to_signed-Fits w (php.get_long v), refl, refl)
  input_of-Converts _ (of_uint w8) type_name v d h =
      subst (Converts _ (of_uint w8) v) (returns-eq h)
        (to_unsigned-lt w8 (php.get_long v), refl, refl)
  input_of-Converts _ (of_uint w16) type_name v d h =
      subst (Converts _ (of_uint w16) v) (returns-eq h)
        (to_unsigned-lt w16 (php.get_long v), refl, refl)
  input_of-Converts _ (of_uint w32) type_name v d h =
      subst (Converts _ (of_uint w32) v) (returns-eq h)
        (to_unsigned-lt w32 (php.get_long v), refl, refl)
  input_of-Converts _ (of_uint w64) type_name v d h =
      subst (Converts _ (of_uint w64) v) (returns-eq h)
        (to_unsigned-lt w64 (php.get_long v), refl, refl)
  input_of-Converts _ of_float64 type_name v d h =
      subst (Converts _ of_float64 v) (returns-eq h) (tt, refl, refl)
  input_of-Converts _ of_boolean type_name v d h =
      subst (Converts _ of_boolean v) (returns-eq h) (tt, refl, refl)
  input_of-Converts _ of_string type_name v d h =
      subst (Converts _ of_string v) (returns-eq h) (tt, refl, refl)
  input_of-Converts _ (of_datetime64 p) type_name v d h =
      subst (Converts _ (of_datetime64 p) v) (returns-eq h) (tt, refl, refl)
  input_of-Converts _ of_uuid type_name v d h =
      subst (Converts _ of_uuid v) (returns-eq h) (parse_uuid-lt (php.get_string v), refl, refl)
