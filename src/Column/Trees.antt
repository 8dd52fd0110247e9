-- ===== src/Column/Trees.antt =====
-- A client library whose columns are trees of cells, which the examples run on.
use php_clickhouse.Base.{
  ℕ, zero, suc, Bytes, codes, Bool, false, none, some, Option, [], ◌==◌, if◌then◌else◌,
}
use php_clickhouse.Base.Int.{ℤ, pos}
use php_clickhouse.Errors.{Outcome, returns, invalid}
use php_clickhouse.Php.{Zval, is_long, is_string, Engine}
use php_clickhouse.Column.{
  w8, Code, int, uint, float32, float64, boolean, string, fixed_string, date, date32, datetime,
  datetime64, ipv4, ipv6, uuid, enum8, enum16, decimal, int128, uint128, other, ColumnType, scalar,
  nullable, array_of, tuple_of, map_of, Members, no_members, member_and, Input, Output, Columns,
}

pub data Cell : Type 0 where
  whole : ℤ → Cell
  natural : ℕ → Cell
  truth : Bool → Cell
  text : Bytes → Cell
  halves : ℕ → ℕ → Cell

-- The types that a tree knows: Int8, String, Array(Int8) and Map(String, Int8).
pub data Kind : Type 0 where
  whole_numbers texts lists pairs : Kind

abbrev pub type_of_kind : Kind → ColumnType
type_of_kind whole_numbers = scalar (int w8)
type_of_kind texts = scalar string
type_of_kind lists = array_of (scalar (int w8))
type_of_kind pairs = map_of (scalar string) (scalar (int w8))

abbrev pub kind_id : Kind → ℕ
kind_id whole_numbers = 0
kind_id texts = 1
kind_id lists = 2
kind_id pairs = 3

-- A column of one of these types, a Nullable of its first inner column, or a Tuple of its first inner columns.
pub data Shape : Type 0 where
  flat : Kind → Shape
  optional : Shape
  tuple : ℕ → Shape

-- A column with no rows, or its size, its cells and flags, its nested column or members, and the rows of an
-- array or a map.
pub data Tree : Type 0 where
  blank : Kind → Tree
  node : Shape → ℕ → (ℕ → Cell) → (ℕ → Bool) → (ℕ → Tree) → (ℕ → Tree) → Tree

abbrev pub shape_of : Tree → Shape
shape_of (blank k) = flat k
shape_of (node s n cells flags inner rows) = s

-- The first types of a family.
abbrev pub first_members : ℕ → (ℕ → ColumnType) → Members
first_members zero f = no_members
first_members (suc n) f = member_and (f 0) (first_members n (λ i. f (suc i)))

abbrev pub type_of_shape : Shape → (ℕ → ColumnType) → ColumnType
type_of_shape (flat k) f = type_of_kind k
type_of_shape optional f = nullable (f 0)
type_of_shape (tuple n) f = tuple_of (first_members n f)

abbrev pub type_of : Tree → ColumnType
type_of (blank k) = type_of_kind k
type_of (node s n cells flags inner rows) = type_of_shape s (λ i. type_of (inner i))

abbrev pub id_of_shape : Shape → ℕ
id_of_shape (flat k) = kind_id k
id_of_shape optional = 4
id_of_shape (tuple n) = 5

abbrev pub create_of : ColumnType → Option Tree
create_of (scalar (int w8)) = some (blank whole_numbers)
create_of (scalar string) = some (blank texts)
create_of _ = none

abbrev pub size_of : Tree → ℕ
size_of (blank k) = 0
size_of (node s n cells flags inner rows) = n

abbrev pub cells_of : Tree → ℕ → Cell
cells_of (blank k) = λ i. natural 0
cells_of (node s n cells flags inner rows) = cells

abbrev pub flags_of : Tree → ℕ → Bool
flags_of (blank k) = λ i. false
flags_of (node s n cells flags inner rows) = flags

abbrev pub inner_of : Tree → ℕ → Tree
inner_of (blank k) = λ i. blank whole_numbers
inner_of (node s n cells flags inner rows) = inner

abbrev pub rows_of : Tree → ℕ → Tree
rows_of (blank k) = λ i. blank whole_numbers
rows_of (node s n cells flags inner rows) = rows

-- The column and the columns inside it with no rows.
abbrev pub emptied : Tree → Tree
emptied (blank k) = blank k
emptied (node s n cells flags inner rows) =
    node s 0 (λ i. natural 0) (λ i. false) (λ i. emptied (inner i)) (λ i. blank whole_numbers)

abbrev pub put_at : {A : Type 0} → ℕ → A → (ℕ → A) → ℕ → A
put_at i a f j = if j == i then a else f j

-- A Tuple(Nullable(Int8), Map(String, Int8)) with no rows.
abbrev pub numbers_and_maps : Tree
numbers_and_maps =
    node (tuple 2) 0 (λ i. natural 0) (λ i. false)
      (put_at 0
        (node optional 0 (λ i. natural 0) (λ i. false) (λ i. blank whole_numbers)
          (λ i. blank whole_numbers))
        (λ i. blank pairs))
      (λ i. blank whole_numbers)

abbrev pub numbers_and_maps_type : ColumnType
numbers_and_maps_type = tuple_of (
    member_and (nullable (scalar (int w8)))
      (member_and (map_of (scalar string) (scalar (int w8))) no_members))

abbrev pub cell_in : (code : Code) → Input code → Cell
cell_in (int w) z = whole z
cell_in (uint w) n = natural n
cell_in float32 d = natural d
cell_in float64 d = natural d
cell_in boolean b = truth b
cell_in string s = text s
cell_in fixed_string s = text s
cell_in date z = whole z
cell_in date32 z = whole z
cell_in datetime z = whole z
cell_in (datetime64 p) z = whole z
cell_in ipv4 s = text s
cell_in ipv6 s = text s
cell_in uuid (hi, lo) = halves hi lo
cell_in enum8 e = natural 0
cell_in enum16 e = natural 0
cell_in (decimal s) d = text d
cell_in int128 e = absurd e
cell_in uint128 e = absurd e
cell_in other e = absurd e

abbrev pub cell_out : (code : Code) → Cell → Outcome (Output code)
cell_out (int w) (whole z) = returns z
cell_out (uint w) (natural n) = returns n
cell_out float64 (natural d) = returns d
cell_out boolean (truth b) = returns b
cell_out string (text s) = returns s
cell_out (datetime64 p) (whole z) = returns z
cell_out uuid (halves hi lo) = returns (hi, lo)
cell_out _ _ = invalid "no such cell"

abbrev pub trees : Columns Tree
trees = record {
  size = size_of;
  append = λ code d c. returns (
      node (shape_of c) (suc (size_of c)) (put_at (size_of c) (cell_in code d) (cells_of c))
        (flags_of c) (inner_of c) (rows_of c));
  at = λ code c i. cell_out code (cells_of c i);
  type_name = λ c. codes "T";
  type_id = λ c. id_of_shape (shape_of c);
  create = create_of;
  clone_empty = λ c. emptied c;
  nested = λ c. inner_of c 0;
  set_nested = λ c m.
      node (shape_of c) (size_of c) (cells_of c) (flags_of c) (put_at 0 m (inner_of c)) (rows_of c);
  append_flag = λ b c.
      node (shape_of c) (suc (size_of c)) (cells_of c) (put_at (size_of c) b (flags_of c))
        (inner_of c) (rows_of c);
  is_null_at = λ c i. flags_of c i;
  array_data = λ c. blank whole_numbers;
  append_as_column = λ e c. returns (
      node (shape_of c) (suc (size_of c)) (cells_of c) (flags_of c) (inner_of c)
        (put_at (size_of c) e (rows_of c)));
  column_at = λ c i. returns (rows_of c i);
  member = inner_of;
  set_member = λ c i m.
      node (shape_of c) (if i == 0 then size_of m else size_of c) (cells_of c) (flags_of c)
        (put_at i m (inner_of c)) (rows_of c);
  tuple_column = λ k v.
      node (tuple 2) (size_of k) (cells_of k) (flags_of k)
        (put_at 0 k (put_at 1 v (inner_of (blank whole_numbers)))) (rows_of (blank whole_numbers));
  array_column = λ c. blank whole_numbers;
  append_map = λ r c. returns (
      node (shape_of c) (suc (size_of c)) (cells_of c) (flags_of c) (inner_of c)
        (put_at (size_of c) (rows_of r 0) (rows_of c)));
  entries_at = λ c i. returns (rows_of c i);
  item = λ c i. returns none;
}

-- An engine that knows integers and strings.
abbrev pub long_of : Zval → ℤ
long_of (is_long n) = n
long_of _ = pos 0

abbrev pub string_of : Zval → Bytes
string_of (is_string s) = s
string_of _ = []

abbrev pub php : Engine
php = record {
  get_long = long_of;
  get_double = λ v. 0;
  get_string = string_of;
  is_true = λ v. false;
  to_float = λ d. d;
  of_uint64 = λ n. n;
  round_scaled = λ d s. pos 0;
  numeric_key = λ s. none;
}

abbrev pub shown : ℤ → Bytes
shown n = []
