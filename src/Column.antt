-- ===== src/Column.antt =====
-- The columns of the client library as ch_client.cpp uses them. A `ColumnRef` is shared: what the code does to
-- a nested column is done to the column that holds it, so that the model writes the nested column back.
pub mod Append
pub mod Read
pub mod Types
pub mod Cache
pub mod Agreement
pub mod Block
pub mod Send
pub mod Stores
pub mod Arrays
pub mod Maps
pub mod Table
pub mod Inserted
pub mod Fetched
pub mod Flush
pub mod Flushes
pub mod Batched
pub mod Sizes
pub mod Rows
pub mod Earlier
pub mod Stored
pub mod Scalars
pub mod RoundTrip
mod Trees
mod TreeTypes
mod TreeLaws
mod Examples
mod Loops
mod BatchExamples
use php_clickhouse.Base.{ℕ, ◌^◌, Bytes, Bool, List, [], ◌∷◌, Option, ◌⊎◌}
use php_clickhouse.Base.Int.{ℤ}
use php_clickhouse.Errors.{Outcome}
use php_clickhouse.Php.{Double}

pub data Width : Type 0 where
  w8 w16 w32 w64 : Width

abbrev pub bits : Width → ℕ
bits w8 = 8
bits w16 = 16
bits w32 = 32
bits w64 = 64

-- The type codes without parameters that are types: Int8 to Int64, UInt8 to UInt64 and so on. `datetime64` has
-- its precision and `decimal` its scale; `other` is any code that the code does not name.
pub data Code : Type 0 where
  int uint : Width → Code
  float32 float64 boolean string fixed_string date date32 datetime : Code
  datetime64 : ℕ → Code
  ipv4 ipv6 uuid enum8 enum16 : Code
  decimal : ℕ → Code
  int128 uint128 other : Code

-- The type of a column. The client library's LowCardinality is over strings.
mutual
  pub data ColumnType : Type 0 where
    scalar : Code → ColumnType
    nullable : ColumnType → ColumnType
    array_of : ColumnType → ColumnType
    tuple_of : Members → ColumnType
    map_of : ColumnType → ColumnType → ColumnType
    low_cardinality : ColumnType

  pub data Members : Type 0 where
    no_members : Members
    member_and : ColumnType → Members → Members

-- The argument of `Append` of a column of a code: nothing can be appended where the code refuses it.
abbrev pub Input : Code → Type 0
Input (int w) = ℤ
Input (uint w) = ℕ
Input float32 = Double
Input float64 = Double
Input boolean = Bool
Input string = Bytes
Input fixed_string = Bytes
Input date = ℤ
Input date32 = ℤ
Input datetime = ℤ
Input (datetime64 p) = ℤ
Input ipv4 = Bytes
Input ipv6 = Bytes
Input uuid = ℕ × ℕ
Input enum8 = Bytes ⊎ ℤ
Input enum16 = Bytes ⊎ ℤ
Input (decimal s) = Bytes
Input int128 = ⊥
Input uint128 = ⊥
Input other = ⊥

-- What a cell is read as: `operator[]`, `At`, `NameAt` or `AsString`.
abbrev pub Output : Code → Type 0
Output (int w) = ℤ
Output (uint w) = ℕ
Output float32 = Double
Output float64 = Double
Output boolean = Bool
Output string = Bytes
Output fixed_string = Bytes
Output date = ℤ
Output date32 = ℤ
Output datetime = ℤ
Output (datetime64 p) = ℤ
Output ipv4 = Bytes
Output ipv6 = Bytes
Output uuid = ℕ × ℕ
Output enum8 = Bytes
Output enum16 = Bytes
Output (decimal s) = ℤ
Output int128 = ℤ
Output uint128 = ℤ
Output other = Unit {0}

-- The calls of the client library. `set_nested` and `set_member` are the write through a shared column;
-- `create` is CreateColumnByType of a type's name, `none` its nullptr; `type_id` is the address of the
-- column's Type object; `tuple_column` and `array_column` are make_shared of a ColumnTuple of two columns and
-- of a ColumnArray; `append_map` appends the row of a map that is made of that array; `entries_at` is
-- GetAsColumn of a map; `item` is GetItem of a LowCardinality column, `none` where it is no string.
pub record Columns (Column : Type 0) : Type 0 where
  pub size : Column → ℕ
  pub append : (code : Code) → Input code → Column → Outcome Column
  pub at : (code : Code) → Column → ℕ → Outcome (Output code)
  pub type_name : Column → Bytes
  pub type_id : Column → ℕ
  pub create : ColumnType → Option Column
  pub clone_empty : Column → Column
  pub nested : Column → Column
  pub set_nested : Column → Column → Column
  pub append_flag : Bool → Column → Column
  pub is_null_at : Column → ℕ → Bool
  pub array_data : Column → Column
  pub append_as_column : Column → Column → Outcome Column
  pub column_at : Column → ℕ → Outcome Column
  pub member : Column → ℕ → Column
  pub set_member : Column → ℕ → Column → Column
  pub tuple_column : Column → Column → Column
  pub array_column : Column → Column
  pub append_map : Column → Column → Outcome Column
  pub entries_at : Column → ℕ → Outcome Column
  pub item : Column → ℕ → Outcome (Option Bytes)
