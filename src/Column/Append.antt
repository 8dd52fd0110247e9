-- ===== src/Column/Append.antt =====
-- `ch_append_value` of ch_client.cpp. The type is that of the column. `Templates` is `ch_map_templates`, the
-- cache of key and value columns by the address of a Map type.
use php_clickhouse.Base.{
  ℕ, suc, Bytes, codes, String, Bool, true, false, List, [], ◌∷◌, ◌++◌, Option, none, some, ◌==◌,
  if◌then◌else◌, ◌⊎◌, inl, inr,
}
use php_clickhouse.Base.Int.{ℤ, pos, ◌*ℤ◌, to_signed, to_unsigned}
use php_clickhouse.Errors.{other_error, Outcome, returns, throws, ◌>>=◌, invalid}
use php_clickhouse.Php.{
  Zval, is_null, is_bool, is_long, is_double, is_string, is_array, is_date, is_object, Entries, nil,
  entry, Key, index, name, Engine,
}
use php_clickhouse.Codec.Uuid.{parse_uuid}
use php_clickhouse.Codec.DateTime64.{scale_of, time_to_ticks}
use php_clickhouse.Column.{
  bits, Code, int, uint, float32, float64, boolean, string, fixed_string, date, date32, datetime,
  datetime64, ipv4, ipv6, uuid, enum8, enum16, decimal, int128, uint128, other, ColumnType, scalar,
  nullable, array_of, tuple_of, map_of, low_cardinality, Members, no_members, member_and, Input,
  Columns,
}

-- throw std::runtime_error: the default case of the switch.
unfoldable pub unsupported {ℓ} : {A : Type ℓ} → Bytes → Outcome A
unsupported type_name = throws (record {
  kind = other_error;
  what = codes "clickhouse: insert not supported for column type " ++ type_name;
  code = pos 0;
})

-- Z_TYPE_P(value) != IS_ARRAY throws `what`.
unfoldable pub expect_array : String → Zval → Outcome Entries
expect_array what (is_array es) = returns es
expect_array what is_null = invalid what
expect_array what (is_bool b) = invalid what
expect_array what (is_long n) = invalid what
expect_array what (is_double d) = invalid what
expect_array what (is_string s) = invalid what
expect_array what (is_date sec us) = invalid what
expect_array what (is_object n) = invalid what

module _ (php : Engine) where
  pub zval_to_timestamp : Zval → ℤ
  zval_to_timestamp (is_date sec us) = sec
  zval_to_timestamp v = php.get_long v

  pub datetime64_ticks : ℕ → Zval → ℤ
  datetime64_ticks p (is_date sec us) = time_to_ticks p sec us
  datetime64_ticks p (is_double d) = php.round_scaled d (scale_of p)
  datetime64_ticks p v = php.get_long v *ℤ scale_of p

  -- A string is the name of an enum's value, anything else its number.
  pub enum_input : ℕ → Zval → Bytes ⊎ ℤ
  enum_input w (is_string s) = inl s
  enum_input w v = inr (to_signed w (php.get_long v))

  -- The cases of the switch that append one number or text; the others throw with the type's name.
  unfoldable pub input_of : (code : Code) → Bytes → Zval → Outcome (Input code)
  input_of (int w) type_name v = returns (to_signed (bits w) (php.get_long v))
  input_of (uint w) type_name v = returns (to_unsigned (bits w) (php.get_long v))
  input_of float32 type_name v = returns (php.to_float (php.get_double v))
  input_of float64 type_name v = returns (php.get_double v)
  input_of boolean type_name v = returns (php.is_true v)
  input_of string type_name v = returns (php.get_string v)
  input_of fixed_string type_name v = returns (php.get_string v)
  input_of date type_name v = returns (zval_to_timestamp v)
  input_of date32 type_name v = returns (zval_to_timestamp v)
  input_of datetime type_name v = returns (zval_to_timestamp v)
  input_of (datetime64 p) type_name v = returns (datetime64_ticks p v)
  input_of ipv4 type_name v = returns (php.get_string v)
  input_of ipv6 type_name v = returns (php.get_string v)
  input_of uuid type_name v = returns (parse_uuid (php.get_string v))
  input_of enum8 type_name v = returns (enum_input 8 v)
  input_of enum16 type_name v = returns (enum_input 16 v)
  input_of (decimal s) type_name v = returns (php.get_string v)
  input_of int128 type_name v = unsupported type_name
  input_of uint128 type_name v = unsupported type_name
  input_of other type_name v = unsupported type_name

-- The cache: the address of a Map type, and its empty key and value columns.
abbrev pub Templates : Type 0 → Type 0
Templates Column = List (ℕ × Column × Column)

unfoldable pub find_template : {Column : Type 0} → ℕ → Templates Column → Option (Column × Column)
find_template id [] = none
find_template id ((i, k, v) ∷ tmpl) = if i == id then some (k, v) else find_template id tmpl

-- What an append does: the column and the cache after it, or an exception.
abbrev pub Appended : Type 0 → Type 0
Appended Column = Outcome (Column × Templates Column)

unfoldable pub null_value : Zval → Bool
null_value is_null = true
null_value _ = false

-- A PHP key as the value that is appended to the key column.
unfoldable pub key_value : Key → Zval
key_value (index n) = is_long n
key_value (name s) = is_string s

module _ {Column : Type 0} (lib : Columns Column) where
  -- Appending one value to a column, as `ch_append_value` does for one type.
  abbrev pub Appender : Type 0
  Appender = Column → Zval → Templates Column → Appended Column

  unfoldable pub flagged : Column → Bool → Column × Templates Column → Appended Column
  flagged c flag (nested, tmpl) = returns (lib.append_flag flag (lib.set_nested c nested), tmpl)

  unfoldable pub created :
      ℕ
      → Option Column
      → Option Column
      → Templates Column
      → Outcome ((Column × Column) × Templates Column)
  created id (some k) (some v) tmpl = returns ((k, v), (id, k, v) ∷ tmpl)
  created id none v tmpl = invalid "clickhouse: unsupported Map key/value type"
  created id (some k) none tmpl = invalid "clickhouse: unsupported Map key/value type"

  -- The nested column and the flags stay as long as one another: a null appends a placeholder.
  unfoldable pub append_nullable : Appender → Appender
  append_nullable append c v tmpl =
      if null_value v
      then append (lib.nested c) (is_long (pos 0)) tmpl >>= flagged c true
      else append (lib.nested c) v tmpl >>= flagged c false

  -- The loop over the elements of an array.
  unfoldable pub append_each : Appender → Entries → Column → Templates Column → Appended Column
  append_each append nil c tmpl = returns (c, tmpl)
  append_each append (entry k v es) c tmpl = do
    (c', tmpl') ← append c v tmpl
    append_each append es c' tmpl'

  unfoldable pub append_array : Appender → Appender
  append_array append c v tmpl = do
    es ← expect_array "clickhouse: an Array column expects a PHP array" v
    (elements, tmpl') ← append_each append es (lib.clone_empty (lib.array_data c)) tmpl
    c' ← lib.append_as_column elements c
    returns (c', tmpl')

  -- The key and value columns of a Map type, from the cache or created and put into it.
  unfoldable pub templates_of :
      ColumnType
      → ColumnType
      → ℕ
      → Templates Column
      → Outcome ((Column × Column) × Templates Column)
  templates_of kt vt id tmpl = elim (find_template id tmpl) [
    | some kv ↦ returns (kv, tmpl)
    | none ↦ created id (lib.create kt) (lib.create vt) tmpl
  ]

  -- The loop over the entries of a map.
  unfoldable pub append_pairs :
      Appender
      → Appender
      → Entries
      → Column
      → Column
      → Templates Column
      → Outcome ((Column × Column) × Templates Column)
  append_pairs append_k append_v nil keys values tmpl = returns ((keys, values), tmpl)
  append_pairs append_k append_v (entry k v es) keys values tmpl = do
    (keys', tmpl') ← append_k keys (key_value k) tmpl
    (values', tmpl'') ← append_v values v tmpl'
    append_pairs append_k append_v es keys' values' tmpl''

  -- The filled entries as an Array(Tuple) of one row.
  unfoldable pub one_row : Column → Column → Outcome Column
  one_row keys values =
      let entries = lib.tuple_column keys values in
      lib.append_as_column entries (lib.array_column (lib.clone_empty entries))

  -- `append_all` is the loop over the members.
  unfoldable pub append_tuple : (Column → Entries → Templates Column → Appended Column) → Appender
  append_tuple append_all c v tmpl = do
    es ← expect_array "clickhouse: a Tuple column expects a PHP array" v
    append_all c es tmpl

  unfoldable pub append_to_map : ColumnType → ColumnType → Appender → Appender → Appender
  append_to_map kt vt append_k append_v c v tmpl = do
    es ← expect_array "clickhouse: a Map column expects a PHP array" v
    ((k, v'), tmpl') ← templates_of kt vt (lib.type_id c) tmpl
    ((keys, values), tmpl'') ←
        append_pairs append_k append_v es (lib.clone_empty k) (lib.clone_empty v') tmpl'
    row ← one_row keys values
    c' ← lib.append_map row c
    returns (c', tmpl'')

module _ {Column : Type 0} (php : Engine) (lib : Columns Column) where
  unfoldable pub append_scalar : Code → Appender lib
  append_scalar code c v tmpl = do
    d ← input_of php code (lib.type_name c) v
    c' ← lib.append code d c
    returns (c', tmpl)

  unfoldable mutual
    pub append_value : ColumnType → Column → Zval → Templates Column → Appended Column
    append_value (scalar code) = append_scalar code
    append_value (nullable ty) = append_nullable lib (append_value ty)
    append_value (array_of ty) = append_array lib (append_value ty)
    append_value (tuple_of tys) = append_tuple lib (append_members tys 0)
    append_value (map_of kt vt) = append_to_map lib kt vt (append_value kt) (append_value vt)
    append_value low_cardinality = λ c v tmpl. unsupported (lib.type_name c)

    -- The loop over the elements of a tuple, from member `i` on.
    pub append_members : Members → ℕ → Column → Entries → Templates Column → Appended Column
    append_members no_members i c nil tmpl = returns (c, tmpl)
    append_members no_members i c (entry k v es) tmpl =
        invalid "clickhouse: too many Tuple elements"
    append_members (member_and ty tys) i c nil tmpl = invalid "clickhouse: too few Tuple elements"
    append_members (member_and ty tys) i c (entry k v es) tmpl = do
      (m, tmpl') ← append_value ty (lib.member c i) v tmpl
      append_members tys (suc i) (lib.set_member c i m) es tmpl'
