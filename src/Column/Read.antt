-- ===== src/Column/Read.antt =====
-- `ch_column_value_to_zval` of ch_client.cpp. The type is that of the column.
use php_clickhouse.Base.{
  ℕ, zero, suc, ◌-◌, ◌^◌, Bytes, Bool, true, false, Option, none, some, ltb, if◌then◌else◌,
}
use php_clickhouse.Base.Int.{ℤ, pos}
use php_clickhouse.Errors.{Outcome, returns, ◌>>=◌}
use php_clickhouse.Php.{
  Zval, is_null, is_bool, is_long, is_double, is_string, is_array, is_date, Entries, nil, entry,
  Key, index, name, Engine, update_entry,
}
use php_clickhouse.Codec.Uuid.{uuid_to_string}
use php_clickhouse.Codec.Decimal.{decimal_to_string}
use php_clickhouse.Codec.DateTime64.{ticks_to_time}
use php_clickhouse.Column.{
  w8, w16, w32, w64, Code, int, uint, float32, float64, boolean, string, fixed_string, date, date32,
  datetime, datetime64, ipv4, ipv6, uuid, enum8, enum16, decimal, int128, uint128, other,
  ColumnType, scalar, nullable, array_of, tuple_of, map_of, low_cardinality, Members, no_members,
  member_and, Output, Columns,
}

-- `show` is `operator<<` of a 128-bit integer.
module _ (php : Engine) (show : ℤ → Bytes) where
  -- Past ZEND_LONG_MAX a UInt64 becomes a double.
  unfoldable pub uint64_value : ℕ → Zval
  uint64_value v = if ltb (2 ^ 63 - 1) v then is_double (php.of_uint64 v) else is_long (pos v)

  -- ch_make_datetime_immutable
  unfoldable pub date_value : ℤ × ℕ → Zval
  date_value (sec, us) = is_date sec us

  unfoldable pub output_value : (code : Code) → Output code → Zval
  output_value (int w) n = is_long n
  output_value (uint w8) n = is_long (pos n)
  output_value (uint w16) n = is_long (pos n)
  output_value (uint w32) n = is_long (pos n)
  output_value (uint w64) n = uint64_value n
  output_value float32 d = is_double d
  output_value float64 d = is_double d
  output_value boolean b = is_bool b
  output_value string s = is_string s
  output_value fixed_string s = is_string s
  output_value date sec = date_value (sec, 0)
  output_value date32 sec = date_value (sec, 0)
  output_value datetime sec = date_value (sec, 0)
  output_value (datetime64 p) ticks = date_value (ticks_to_time p ticks)
  output_value ipv4 s = is_string s
  output_value ipv6 s = is_string s
  output_value uuid u = is_string (uuid_to_string u)
  output_value enum8 s = is_string s
  output_value enum16 s = is_string s
  output_value (decimal scale) raw = is_string (decimal_to_string show raw scale)
  output_value int128 n = is_string (show n)
  output_value uint128 n = is_string (show n)
  output_value other _ = is_null

-- The default case of the switch.
unfoldable pub unread : Code → Bool
unread other = true
unread _ = false

-- The elements under the keys i, i + 1, …, of which `n` are left: add_next_index_zval in a loop.
unfoldable pub read_each : (ℕ → Outcome Zval) → ℕ → ℕ → Outcome Entries
read_each read i zero = returns nil
read_each read i (suc n) = do
  v ← read i
  es ← read_each read (suc i) n
  returns (entry (index (pos i)) v es)

pub text_or_null : Option Bytes → Zval
text_or_null none = is_null
text_or_null (some s) = is_string s

-- An integer key stays, a string key goes through the symbol table's rule, and any other is made a string.
unfoldable pub key_of : Engine → Zval → Key
key_of php (is_long n) = index n
key_of php (is_string s) = elim (php.numeric_key s) [ none ↦ name s | some n ↦ index n ]
key_of php v = elim (php.numeric_key (php.get_string v)) [
  | none ↦ name (php.get_string v)
  | some n ↦ index n
]

-- The loop over the entries of a map, from entry `i` on.
unfoldable pub read_pairs :
    Engine → (ℕ → Outcome Zval) → (ℕ → Outcome Zval) → ℕ → ℕ → Entries → Outcome Entries
read_pairs php read_k read_v i zero es = returns es
read_pairs php read_k read_v i (suc n) es = do
  k ← read_k i
  v ← read_v i
  read_pairs php read_k read_v (suc i) n (update_entry (key_of php k) v es)

module _ {Column : Type 0} (php : Engine) (show : ℤ → Bytes) (lib : Columns Column) where
  -- Nothing is read of a column of another type.
  unfoldable pub read_scalar : Code → Column → ℕ → Outcome Zval
  read_scalar code c row =
      if unread code
      then returns is_null
      else lib.at code c row >>= λ d. returns (output_value php show code d)

  unfoldable pub read_nullable : (Column → ℕ → Outcome Zval) → Column → ℕ → Outcome Zval
  read_nullable read c row =
      if lib.is_null_at c row then returns is_null else read (lib.nested c) row

  unfoldable pub read_array : (Column → ℕ → Outcome Zval) → Column → ℕ → Outcome Zval
  read_array read c row = do
    elements ← lib.column_at c row
    es ← read_each (read elements) 0 (lib.size elements)
    returns (is_array es)

  unfoldable pub read_map :
      (Column → ℕ → Outcome Zval) → (Column → ℕ → Outcome Zval) → Column → ℕ → Outcome Zval
  read_map read_k read_v c row = do
    pairs ← lib.entries_at c row
    es ←
        read_pairs php (read_k (lib.member pairs 0)) (read_v (lib.member pairs 1)) 0
          (lib.size pairs) nil
    returns (is_array es)

  unfoldable mutual
    pub column_value : ColumnType → Column → ℕ → Outcome Zval
    column_value (scalar code) = read_scalar code
    column_value (nullable ty) = read_nullable (column_value ty)
    column_value (array_of ty) = read_array (column_value ty)
    column_value (tuple_of tys) = λ c row. members_value tys 0 c row >>= λ es. returns (is_array es)
    column_value (map_of kt vt) = read_map (column_value kt) (column_value vt)
    column_value low_cardinality = λ c row. lib.item c row >>= λ s. returns (text_or_null s)

    -- The loop over the members of a tuple, from member `i` on.
    pub members_value : Members → ℕ → Column → ℕ → Outcome Entries
    members_value no_members i c row = returns nil
    members_value (member_and ty tys) i c row = do
      v ← column_value ty (lib.member c i) row
      es ← members_value tys (suc i) c row
      returns (entry (index (pos i)) v es)
