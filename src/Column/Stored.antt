-- ===== src/Column/Stored.antt =====
-- What is read of a cell into which a PHP value was written, for the types that lose nothing but what their
-- conversion says: the description that `ch_append_value` and `ch_column_value_to_zval` are compared with.
use php_clickhouse.Base.{ℕ, suc, ◌-◌, ◌^◌, ◌≤◌, ◌<◌, if◌then◌else◌, ltb}
use php_clickhouse.Base.Int.{pos, pos_part, neg_part, to_signed, to_unsigned}
use php_clickhouse.Php.{
  Zval, is_null, is_bool, is_long, is_double, is_string, is_array, is_date, Entries, nil, entry,
  index, Engine, update_entry,
}
use php_clickhouse.Codec.Uuid.{parse_uuid, uuid_to_string}
use php_clickhouse.Codec.DateTime64.{ticks_to_time}
use php_clickhouse.Column.{
  Width, w8, w16, w32, w64, bits, Code, int, uint, float64, boolean, string, datetime64, uuid,
  ColumnType, scalar, nullable, array_of, tuple_of, map_of, low_cardinality, Members, no_members,
  member_and, Input, Output,
}
use php_clickhouse.Column.Append.{null_value, datetime64_ticks, key_value}
use php_clickhouse.Column.Read.{key_of}

-- The codes whose columns keep what is appended.
pub data PlainCode : Code → Type 0 where
  of_int : (w : Width) → PlainCode (int w)
  of_uint : (w : Width) → PlainCode (uint w)
  of_float64 : PlainCode float64
  of_boolean : PlainCode boolean
  of_string : PlainCode string
  of_datetime64 : (p : ℕ) → PlainCode (datetime64 p)
  of_uuid : PlainCode uuid

-- The value that the code casts to: the number fits the column's type.
unfoldable pub Fits : {code : Code} → PlainCode code → Input code → Type 0
Fits (of_int w) z = (pos_part z < 2 ^ (bits w - 1)) × (neg_part z ≤ 2 ^ (bits w - 1))
Fits (of_uint w) n = n < 2 ^ bits w
Fits of_float64 d = Unit {0}
Fits of_boolean b = Unit {0}
Fits of_string s = Unit {0}
Fits (of_datetime64 p) ticks = Unit {0}
Fits of_uuid (hi, lo) = (hi < 2 ^ 64) × (lo < 2 ^ 64)

unfoldable pub same_cell : {code : Code} → PlainCode code → Input code → Output code
same_cell (of_int w) z = z
same_cell (of_uint w) n = n
same_cell of_float64 d = d
same_cell of_boolean b = b
same_cell of_string s = s
same_cell (of_datetime64 p) ticks = ticks
same_cell of_uuid u = u

unfoldable mutual
  pub Plain : ColumnType → Type 0
  Plain (scalar code) = PlainCode code
  Plain (nullable ty) = Plain ty
  Plain (array_of ty) = Plain ty
  Plain (tuple_of tys) = AllPlain tys
  Plain (map_of kt vt) = Plain kt × Plain vt
  Plain low_cardinality = ⊥

  pub AllPlain : Members → Type 0
  AllPlain no_members = Unit {0}
  AllPlain (member_and ty tys) = Plain ty × AllPlain tys

module _ (php : Engine) where
  -- An integer is wrapped to the column's width, and a UInt64 past 2 ^ 63 - 1 is a double.
  unfoldable pub stored_scalar : {code : Code} → PlainCode code → Zval → Zval
  stored_scalar (of_int w) v = is_long (to_signed (bits w) (php.get_long v))
  stored_scalar (of_uint w8) v = is_long (pos (to_unsigned 8 (php.get_long v)))
  stored_scalar (of_uint w16) v = is_long (pos (to_unsigned 16 (php.get_long v)))
  stored_scalar (of_uint w32) v = is_long (pos (to_unsigned 32 (php.get_long v)))
  stored_scalar (of_uint w64) v =
      let n = to_unsigned 64 (php.get_long v) in
      if ltb (2 ^ 63 - 1) n then is_double (php.of_uint64 n) else is_long (pos n)
  stored_scalar of_float64 v = is_double (php.get_double v)
  stored_scalar of_boolean v = is_bool (php.is_true v)
  stored_scalar of_string v = is_string (php.get_string v)
  stored_scalar (of_datetime64 p) v =
      let (sec, us) = ticks_to_time p (datetime64_ticks php p v) in is_date sec us
  stored_scalar of_uuid v = is_string (uuid_to_string (parse_uuid (php.get_string v)))

  -- The elements under the keys i, i + 1, …, whatever keys they had.
  unfoldable pub stored_each : (Zval → Zval) → ℕ → Entries → Entries
  stored_each f i nil = nil
  stored_each f i (entry k v es) = entry (index (pos i)) (f v) (stored_each f (suc i) es)

  -- The entries: each key as it is stored and read, and the last of those whose keys are then the same.
  unfoldable pub stored_pairs : (Zval → Zval) → (Zval → Zval) → Entries → Entries → Entries
  stored_pairs f g nil out = out
  stored_pairs f g (entry k v es) out =
      stored_pairs f g es (update_entry (key_of php (f (key_value k))) (g v) out)

  unfoldable pub in_array : (Entries → Entries) → Zval → Zval
  in_array f (is_array es) = is_array (f es)
  in_array f v = is_null

  unfoldable pub unless_null : (Zval → Zval) → Zval → Zval
  unless_null f v = if null_value v then is_null else f v

  unfoldable mutual
    unfolding Plain

    pub stored : (ty : ColumnType) → Plain ty → Zval → Zval
    stored (scalar code) p = stored_scalar p
    stored (nullable ty) p = unless_null (stored ty p)
    stored (array_of ty) p = in_array (stored_each (stored ty p) 0)
    stored (tuple_of tys) p = in_array (stored_members tys p 0)
    stored (map_of kt vt) (p, q) = in_array (λ es. stored_pairs (stored kt p) (stored vt q) es nil)
    stored low_cardinality p = absurd p

    pub stored_members : (tys : Members) → AllPlain tys → ℕ → Entries → Entries
    stored_members no_members p i es = nil
    stored_members (member_and ty tys) p i nil = nil
    stored_members (member_and ty tys) (p, ps) i (entry k v es) =
        entry (index (pos i)) (stored ty p v) (stored_members tys ps (suc i) es)
