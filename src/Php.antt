-- ===== src/Php.antt =====
-- The PHP values that go into columns and come out of them, as far as ch_client.cpp tells them apart, and
-- what that code asks the PHP engine for.
use php_clickhouse.Base.{ℕ, Bytes, bytes_eq, Bool, false, Option, ◌==◌, if◌then◌else◌}
use php_clickhouse.Base.Int.{ℤ, pos, negsuc}

-- A double is its bit pattern: what is computed with it is a parameter.
abbrev pub Double : Type 0
Double = ℕ

pub data Key : Type 0 where
  index : ℤ → Key
  name : Bytes → Key

-- `is_date` is a DateTimeInterface with its Unix seconds and microseconds; `is_object` is any other object.
mutual
  pub data Zval : Type 0 where
    is_null : Zval
    is_bool : Bool → Zval
    is_long : ℤ → Zval
    is_double : Double → Zval
    is_string : Bytes → Zval
    is_array : Entries → Zval
    is_date : ℤ → ℕ → Zval
    is_object : ℕ → Zval

  -- A PHP array: keys and values in order.
  pub data Entries : Type 0 where
    nil : Entries
    entry : Key → Zval → Entries → Entries

-- zval_get_long, zval_get_double, zval_get_string and zend_is_true; the casts between numbers and doubles;
-- `llround(d * scale)`; and the integer that a numeric string stands for as an array key.
pub record Engine : Type 0 where
  pub get_long : Zval → ℤ
  pub get_double : Zval → Double
  pub get_string : Zval → Bytes
  pub is_true : Zval → Bool
  pub to_float : Double → Double
  pub of_uint64 : ℕ → Double
  pub round_scaled : Double → ℕ → ℤ
  pub numeric_key : Bytes → Option ℤ

unfoldable pub key_eq : Key → Key → Bool
key_eq (index (pos a)) (index (pos b)) = a == b
key_eq (index (negsuc a)) (index (negsuc b)) = a == b
key_eq (index _) _ = false
key_eq (name a) (name b) = bytes_eq a b
key_eq (name a) (index _) = false

-- zend_hash_index_update and zend_hash_update: a key that is there keeps its place.
unfoldable pub update_entry : Key → Zval → Entries → Entries
update_entry k v nil = entry k v nil
update_entry k v (entry j w es) =
    if key_eq j k then entry j v es else entry j w (update_entry k v es)
