-- ===== src/Column/Earlier.antt =====
-- The rows that a column has already, when a value is appended.
use php_clickhouse.Base.{
  ℕ, suc, ◌<◌, ◌≡◌, inl, inr, refl, ap, ◌∙◌, Bytes, Bool, true, false, arith, Bool-cases,
}
use php_clickhouse.Base.Int.{ℤ, pos}
use php_clickhouse.Errors.{returns, ◌>>=◌, >>=-eq-returns, returns-eq}
use php_clickhouse.Php.{Zval, is_long, Entries, nil, entry, Engine}
use php_clickhouse.Column.{
  Code, ColumnType, scalar, nullable, array_of, tuple_of, map_of, low_cardinality, Members,
  no_members, member_and, Input, Columns,
}
use php_clickhouse.Column.Append.{
  Templates, Appender, input_of, expect_array, null_value, flagged, append_nullable, append_each,
  append_array, append_tuple, templates_of, append_pairs, one_row, append_to_map, append_scalar,
  append_value, append_members, unsupported,
}
use php_clickhouse.Column.Read.{
  read_scalar, read_nullable, read_array, read_map, column_value, members_value,
}
use php_clickhouse.Column.Rows.{append_members-before, set_member-HaveRows}
use php_clickhouse.Column.Sizes.{CountsRows, HasRows, HaveRows}

-- What is documented of the client library's columns: an append leaves the rows before it as they were.
pub record KeepsRows {Column : Type 0} (lib : Columns Column) : Type 0 where
  pub append_keeps :
      (code : Code) (d : Input code) (c c' : Column) (i : ℕ)
      → lib.append code d c ≡ returns c'
      → i < lib.size c
      → lib.at code c' i ≡ lib.at code c i
  pub flag_keeps :
      (b : Bool) (c : Column) (i : ℕ)
      → i < lib.size c
      → lib.is_null_at (lib.append_flag b c) i ≡ lib.is_null_at c i
  pub nested_keeps :
      (c m : Column) (i : ℕ) → lib.is_null_at (lib.set_nested c m) i ≡ lib.is_null_at c i
  pub array_keeps :
      (e c c' : Column) (i : ℕ)
      → lib.append_as_column e c ≡ returns c'
      → i < lib.size c
      → lib.column_at c' i ≡ lib.column_at c i
  pub map_keeps :
      (r c c' : Column) (i : ℕ)
      → lib.append_map r c ≡ returns c'
      → i < lib.size c
      → lib.entries_at c' i ≡ lib.entries_at c i

module _ {Column : Type 0} (php : Engine) (show : ℤ → Bytes) (lib : Columns Column)
    (laws : CountsRows lib) (keeps : KeepsRows lib) where
  -- An appender of one type leaves row `i` of a column with `n` rows as it was.
  Keeps : ColumnType → Appender lib → Type 0
  Keeps ty append =
      (c : Column) (v : Zval) (tmpl tmpl' : Templates Column) (c' : Column) (n i : ℕ)
      → append c v tmpl ≡ returns (c', tmpl')
      → HasRows lib ty n c
      → i < n
      → column_value php show lib ty c' i ≡ column_value php show lib ty c i

  pub read_scalar-at :
      (code : Code) (c c' : Column) (i : ℕ)
      → lib.at code c' i ≡ lib.at code c i
      → read_scalar php show lib code c' i ≡ read_scalar php show lib code c i
  unfolding read_scalar
  read_scalar-at code c c' i h = rw h refl

  scalar-Keeps : (code : Code) → Keeps (scalar code) (append_scalar php lib code)
  unfolding Keeps HasRows append_scalar column_value
  scalar-Keeps code c v tmpl tmpl' c' n i h s l =
      let (d, input, h₁) = >>=-eq-returns (input_of php code (lib.type_name c) v) _ h in
      let (c₁, done, h₂) = >>=-eq-returns (lib.append code d c) _ h₁ in
      let same : c₁ ≡ c' = ap (λ q. q.0) (returns-eq h₂) in
      rw (← same) (read_scalar-at code c c₁ i (keeps.append_keeps code d c c₁ i done (rw s l)))

  flagged-Keeps :
      (ty : ColumnType) (append : Appender lib) (c : Column) (v : Zval) (b : Bool)
      (tmpl tmpl' : Templates Column) (c' : Column) (n i : ℕ)
      → Keeps ty append
      → (append (lib.nested c) v tmpl >>= flagged lib c b) ≡ returns (c', tmpl')
      → HasRows lib (nullable ty) n c
      → i < n
      → column_value php show lib (nullable ty) c' i ≡ column_value php show lib (nullable ty) c i
  unfolding Keeps HasRows flagged column_value read_nullable
  flagged-Keeps ty append c v b tmpl tmpl' c' n i g h s l =
      let ((m, t), done, h₁) = >>=-eq-returns (append (lib.nested c) v tmpl) (flagged lib c b) h in
      let same : lib.append_flag b (lib.set_nested c m) ≡ c' = ap (λ q. q.0) (returns-eq h₁) in
      let inner : lib.nested (lib.append_flag b (lib.set_nested c m)) ≡ m =
        laws.flag_nested b (lib.set_nested c m) ∙ laws.nested_set_nested c m in
      let flag : lib.is_null_at (lib.append_flag b (lib.set_nested c m)) i ≡ lib.is_null_at c i =
        keeps.flag_keeps b (lib.set_nested c m) i (rw (laws.size_set_nested c m, s.0) l)
        ∙ keeps.nested_keeps c m i in
      rw (← same, flag, inner, g (lib.nested c) v tmpl t m n i done s.1 l)

  nullable-Keeps :
      (ty : ColumnType) (append : Appender lib)
      → Keeps ty append
      → Keeps (nullable ty) (append_nullable lib append)
  unfolding Keeps append_nullable
  nullable-Keeps ty append g c v tmpl tmpl' c' n i h s l = elim (Bool-cases (null_value v)) [
    | inl null ↦
        flagged-Keeps ty append c (is_long (pos 0)) true tmpl tmpl' c' n i g (rw null at h) s l
    | inr value ↦ flagged-Keeps ty append c v false tmpl tmpl' c' n i g (rw value at h) s l
  ]

  array-Keeps :
      (ty : ColumnType) (append : Appender lib) → Keeps (array_of ty) (append_array lib append)
  unfolding Keeps HasRows append_array column_value read_array
  array-Keeps ty append c v tmpl tmpl' c' n i h s l =
      let (es, array, h₁) =
        >>=-eq-returns (expect_array "clickhouse: an Array column expects a PHP array" v) _ h in
      let ((e, t), each, h₂) =
        >>=-eq-returns (append_each lib append es (lib.clone_empty (lib.array_data c)) tmpl) _ h₁ in
      let (c₁, done, h₃) = >>=-eq-returns (lib.append_as_column e c) _ h₂ in
      let same : c₁ ≡ c' = ap (λ q. q.0) (returns-eq h₃) in
      rw (← same, keeps.array_keeps e c c₁ i done (rw s.0 l))

  map-Keeps :
      (kt vt : ColumnType) (append_k append_v : Appender lib)
      → Keeps (map_of kt vt) (append_to_map lib kt vt append_k append_v)
  unfolding Keeps HasRows append_to_map column_value read_map
  map-Keeps kt vt append_k append_v c v tmpl tmpl' c' n i h s l =
      let (es, array, h₁) =
        >>=-eq-returns (expect_array "clickhouse: a Map column expects a PHP array" v) _ h in
      let (((k, w), t), found, h₂) =
        >>=-eq-returns (templates_of lib kt vt (lib.type_id c) tmpl) _ h₁ in
      let (((keys, values), t'), pairs, h₃) =
        >>=-eq-returns
          (append_pairs lib append_k append_v es (lib.clone_empty k) (lib.clone_empty w) t) _ h₂ in
      let (row, one, h₄) = >>=-eq-returns (one_row lib keys values) _ h₃ in
      let (c₁, done, h₅) = >>=-eq-returns (lib.append_map row c) _ h₄ in
      let same : c₁ ≡ c' = ap (λ q. q.0) (returns-eq h₅) in
      rw (← same, keeps.map_keeps row c c₁ i done (rw s l))

  tuple-Keeps :
      (tys : Members)
      → ((c : Column) (es : Entries) (tmpl tmpl' : Templates Column) (c' : Column) (n i : ℕ)
          → append_members php lib tys 0 c es tmpl ≡ returns (c', tmpl')
          → HaveRows lib tys 0 n c
          → i < n
          → members_value php show lib tys 0 c' i ≡ members_value php show lib tys 0 c i)
      → Keeps (tuple_of tys) (append_tuple lib (append_members php lib tys 0))
  unfolding Keeps HasRows append_tuple column_value
  tuple-Keeps tys g c v tmpl tmpl' c' n i h (size, some_member, s) l =
      let (es, array, h₁) =
        >>=-eq-returns (expect_array "clickhouse: a Tuple column expects a PHP array" v) _ h in
      rw (g c es tmpl tmpl' c' n i h₁ s l)

  -- A write to a member is not seen in the members behind it.
  pub members_value-set :
      (tys : Members) (c m : Column) (i j row : ℕ)
      → i < j
      → members_value php show lib tys j (lib.set_member c i m) row
        ≡ members_value php show lib tys j c row
  unfolding members_value
  members_value-set no_members c m i j row l = refl
  members_value-set (member_and ty tys) c m i j row l =
      let same : lib.member (lib.set_member c i m) j ≡ lib.member c j =
        ground (arith, laws.member_set_member c m i j) in
      rw (same, members_value-set tys c m i (suc j) row (omega arith))

  mutual
    unfolding append_value column_value HasRows Keeps unsupported

    append_value-Keeps : (ty : ColumnType) → Keeps ty (append_value php lib ty)
    append_value-Keeps (scalar code) = scalar-Keeps code
    append_value-Keeps (nullable ty) =
        nullable-Keeps ty (append_value php lib ty) (append_value-Keeps ty)
    append_value-Keeps (array_of ty) = array-Keeps ty (append_value php lib ty)
    append_value-Keeps (tuple_of tys) = tuple-Keeps tys (append_members-keep tys 0)
    append_value-Keeps (map_of kt vt) =
        map-Keeps kt vt (append_value php lib kt) (append_value php lib vt)
    append_value-Keeps low_cardinality = λ c v tmpl tmpl' c' n i h s l. cc

    append_members-keep :
        (tys : Members) (j : ℕ) (c : Column) (es : Entries) (tmpl tmpl' : Templates Column)
        (c' : Column) (n i : ℕ)
        → append_members php lib tys j c es tmpl ≡ returns (c', tmpl')
        → HaveRows lib tys j n c
        → i < n
        → members_value php show lib tys j c' i ≡ members_value php show lib tys j c i
    append_members-keep no_members j c es tmpl tmpl' c' n i h s l = refl
    append_members-keep (member_and ty tys) j c nil tmpl tmpl' c' n i h s l = cc
    append_members-keep (member_and ty tys) j c (entry k v es) tmpl tmpl' c' n i h (s, ss) l =
        let ((m, t), done, h₁) =
          >>=-eq-returns (append_value php lib ty (lib.member c j) v tmpl) _ h in
        let c₁ = lib.set_member c j m in
        let kept : lib.member c' j ≡ m =
          append_members-before php lib laws tys (suc j) j c₁ es t tmpl' c' h₁ (omega arith)
          ∙ ground (arith, laws.member_set_member c m j j) in
        let this = append_value-Keeps ty (lib.member c j) v tmpl t m n i done s l in
        let rest =
          append_members-keep tys (suc j) c₁ es t tmpl' c' n i h₁
            (set_member-HaveRows php lib laws tys c m j (suc j) n (omega arith) ss) l
          ∙ members_value-set tys c m j (suc j) i (omega arith) in
        rw (kept, this, rest)

  -- Appending a value to a column leaves every row that the column has already as it was: it is read as the same
  -- PHP value as before, in columns of any type.
  pub append_value-keeps :
      (ty : ColumnType) (c : Column) (v : Zval) (tmpl tmpl' : Templates Column) (c' : Column)
      (n i : ℕ)
      → append_value php lib ty c v tmpl ≡ returns (c', tmpl')
      → HasRows lib ty n c
      → i < n
      → column_value php show lib ty c' i ≡ column_value php show lib ty c i
  unfolding Keeps
  append_value-keeps ty c v tmpl tmpl' c' n i h s l =
      append_value-Keeps ty c v tmpl tmpl' c' n i h s l
