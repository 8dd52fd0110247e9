-- ===== src/Column/Sizes.antt =====
-- What is documented of the sizes of the client library's columns, and what it is that a column has some rows.
use php_clickhouse.Base.{ℕ, suc, ◌≡◌, Bool, ◌==◌, if◌then◌else◌}
use php_clickhouse.Errors.{returns}
use php_clickhouse.Column.{
  Code, ColumnType, scalar, nullable, array_of, tuple_of, map_of, low_cardinality, Members,
  no_members, member_and, Input, Columns,
}

-- What is documented of the client library's columns: an append adds one row, a nested column or a member is
-- what was written to it last, a tuple is as long as its first member, and an array keeps its type.
pub record CountsRows {Column : Type 0} (lib : Columns Column) : Type 0 where
  pub append_grows :
      (code : Code) (d : Input code) (c c' : Column)
      → lib.append code d c ≡ returns c'
      → lib.size c' ≡ suc (lib.size c)
  pub flag_grows : (b : Bool) (c : Column) → lib.size (lib.append_flag b c) ≡ suc (lib.size c)
  pub flag_nested : (b : Bool) (c : Column) → lib.nested (lib.append_flag b c) ≡ lib.nested c
  pub size_set_nested : (c m : Column) → lib.size (lib.set_nested c m) ≡ lib.size c
  pub nested_set_nested : (c m : Column) → lib.nested (lib.set_nested c m) ≡ m
  pub array_grows :
      (e c c' : Column) → lib.append_as_column e c ≡ returns c' → lib.size c' ≡ suc (lib.size c)
  pub array_template :
      (e c c' : Column)
      → lib.append_as_column e c ≡ returns c'
      → lib.clone_empty (lib.array_data c') ≡ lib.clone_empty (lib.array_data c)
  pub map_grows :
      (r c c' : Column) → lib.append_map r c ≡ returns c' → lib.size c' ≡ suc (lib.size c)
  pub member_set_member :
      (c m : Column) (i j : ℕ)
      → lib.member (lib.set_member c i m) j ≡ (if i == j then m else lib.member c j)
  pub size_set_first : (c m : Column) → lib.size (lib.set_member c 0 m) ≡ lib.size m
  pub size_set_later : (c m : Column) (i : ℕ) → lib.size (lib.set_member c (suc i) m) ≡ lib.size c

-- A tuple has a member.
abbrev pub HasMember : Members → Type 0
HasMember no_members = ⊥
HasMember (member_and ty tys) = Unit {0}

module _ {Column : Type 0} (lib : Columns Column) where
  -- The column has `n` rows, and so have the flags and the nested column of a Nullable and the members of a
  -- Tuple, however deep they are; and the elements of an Array start out with none.
  unfoldable mutual
    pub HasRows : ColumnType → ℕ → Column → Type 0
    HasRows (scalar code) n c = lib.size c ≡ n
    HasRows (nullable ty) n c = (lib.size c ≡ n) × HasRows ty n (lib.nested c)
    HasRows (array_of ty) n c = (lib.size c ≡ n) × HasRows ty 0 (lib.clone_empty (lib.array_data c))
    HasRows (tuple_of tys) n c = (lib.size c ≡ n) × HasMember tys × HaveRows tys 0 n c
    HasRows (map_of kt vt) n c = lib.size c ≡ n
    HasRows low_cardinality n c = lib.size c ≡ n

    pub HaveRows : Members → ℕ → ℕ → Column → Type 0
    HaveRows no_members i n c = Unit {0}
    HaveRows (member_and ty tys) i n c = HasRows ty n (lib.member c i) × HaveRows tys (suc i) n c

  pub size-HasRows : (ty : ColumnType) (n : ℕ) (c : Column) → HasRows ty n c → lib.size c ≡ n
  unfolding HasRows
  size-HasRows (scalar code) n c h = h
  size-HasRows (nullable ty) n c h = h.0
  size-HasRows (array_of ty) n c h = h.0
  size-HasRows (tuple_of tys) n c h = h.0
  size-HasRows (map_of kt vt) n c h = h
  size-HasRows low_cardinality n c h = h
