-- ===== src/Column/Rows.antt =====
-- An appended value adds one row to a column and to the columns inside it.
use php_clickhouse.Base.{
  ℕ, suc, ◌<◌, ◌≡◌, inl, inr, ap, sym, subst, ◌∙◌, Bool, true, false, arith, Bool-cases,
}
use php_clickhouse.Errors.{returns, ◌>>=◌, >>=-eq-returns, returns-eq}
use php_clickhouse.Base.Int.{pos}
use php_clickhouse.Php.{Zval, is_long, Entries, nil, entry, Engine}
use php_clickhouse.Column.{
  Code, ColumnType, scalar, nullable, array_of, tuple_of, map_of, low_cardinality, Members,
  no_members, member_and, Columns,
}
use php_clickhouse.Column.Append.{
  Templates, Appender, input_of, expect_array, null_value, flagged, append_nullable, append_each,
  append_array, append_tuple, templates_of, append_pairs, one_row, append_to_map, append_scalar,
  append_value, append_members, unsupported,
}
use php_clickhouse.Column.Sizes.{CountsRows, HasMember, HasRows, HaveRows, size-HasRows}

module _ {Column : Type 0} (php : Engine) (lib : Columns Column) (laws : CountsRows lib) where
  -- An appender of one type adds one row.
  Grows : ColumnType → Appender lib → Type 0
  Grows ty append =
      (c : Column) (v : Zval) (tmpl tmpl' : Templates Column) (c' : Column) (n : ℕ)
      → append c v tmpl ≡ returns (c', tmpl')
      → HasRows lib ty n c
      → HasRows lib ty (suc n) c'

  scalar-Grows : (code : Code) → Grows (scalar code) (append_scalar php lib code)
  unfolding Grows HasRows append_scalar
  scalar-Grows code c v tmpl tmpl' c' n h s =
      let (d, input, h₁) = >>=-eq-returns (input_of php code (lib.type_name c) v) _ h in
      let (c₁, done, h₂) = >>=-eq-returns (lib.append code d c) _ h₁ in
      let same : c₁ ≡ c' = ap (λ q. q.0) (returns-eq h₂) in
      rw (← same) (laws.append_grows code d c c₁ done ∙ ap suc s)

  flagged-Grows :
      (ty : ColumnType) (append : Appender lib) (c : Column) (v : Zval) (b : Bool)
      (tmpl tmpl' : Templates Column) (c' : Column) (n : ℕ)
      → Grows ty append
      → (append (lib.nested c) v tmpl >>= flagged lib c b) ≡ returns (c', tmpl')
      → HasRows lib (nullable ty) n c
      → HasRows lib (nullable ty) (suc n) c'
  unfolding Grows HasRows flagged
  flagged-Grows ty append c v b tmpl tmpl' c' n g h s =
      let ((m, t), done, h₁) = >>=-eq-returns (append (lib.nested c) v tmpl) (flagged lib c b) h in
      let same : lib.append_flag b (lib.set_nested c m) ≡ c' = ap (λ q. q.0) (returns-eq h₁) in
      let inner : lib.nested (lib.append_flag b (lib.set_nested c m)) ≡ m =
        laws.flag_nested b (lib.set_nested c m) ∙ laws.nested_set_nested c m in
      subst (λ c. (lib.size c ≡ suc n) × HasRows lib ty (suc n) (lib.nested c)) same
        (
          laws.flag_grows b (lib.set_nested c m) ∙ ap suc (laws.size_set_nested c m ∙ s.0),
          subst (HasRows lib ty (suc n)) (sym inner) (g (lib.nested c) v tmpl t m n done s.1),
        )

  nullable-Grows :
      (ty : ColumnType) (append : Appender lib)
      → Grows ty append
      → Grows (nullable ty) (append_nullable lib append)
  unfolding Grows append_nullable
  nullable-Grows ty append g c v tmpl tmpl' c' n h s = elim (Bool-cases (null_value v)) [
    | inl null ↦ flagged-Grows ty append c (is_long (pos 0)) true tmpl tmpl' c' n g (rw null at h) s
    | inr value ↦ flagged-Grows ty append c v false tmpl tmpl' c' n g (rw value at h) s
  ]

  array-Grows :
      (ty : ColumnType) (append : Appender lib) → Grows (array_of ty) (append_array lib append)
  unfolding Grows HasRows append_array
  array-Grows ty append c v tmpl tmpl' c' n h s =
      let (es, array, h₁) =
        >>=-eq-returns (expect_array "clickhouse: an Array column expects a PHP array" v) _ h in
      let ((e, t), each, h₂) =
        >>=-eq-returns (append_each lib append es (lib.clone_empty (lib.array_data c)) tmpl) _ h₁ in
      let (c₁, done, h₃) = >>=-eq-returns (lib.append_as_column e c) _ h₂ in
      let same : c₁ ≡ c' = ap (λ q. q.0) (returns-eq h₃) in
      subst (λ c'. (lib.size c' ≡ suc n) × HasRows lib ty 0 (lib.clone_empty (lib.array_data c')))
        same (laws.array_grows e c c₁ done ∙ ap suc s.0, rw (laws.array_template e c c₁ done) s.1)

  map-Grows :
      (kt vt : ColumnType) (append_k append_v : Appender lib)
      → Grows (map_of kt vt) (append_to_map lib kt vt append_k append_v)
  unfolding Grows HasRows append_to_map
  map-Grows kt vt append_k append_v c v tmpl tmpl' c' n h s =
      let (es, array, h₁) =
        >>=-eq-returns (expect_array "clickhouse: a Map column expects a PHP array" v) _ h in
      let (((k, w), t), found, h₂) =
        >>=-eq-returns (templates_of lib kt vt (lib.type_id c) tmpl) _ h₁ in
      let (((keys, values), t'), pairs, h₃) =
        >>=-eq-returns
          (append_pairs lib append_k append_v es (lib.clone_empty k) (lib.clone_empty w) t) _ h₂ in
      let (row, one, h₄) = >>=-eq-returns (one_row lib keys values) _ h₃ in
      let (c₁, done, h₅) = >>=-eq-returns (lib.append_map row c) _ h₄ in
      let same : c₁ ≡ c' = ap (λ q. q.0) (returns-eq h₅) in
      rw (← same) (laws.map_grows row c c₁ done ∙ ap suc s)

  -- The members of a tuple that a member's place is before or behind.
  pub set_member-HaveRows :
      (tys : Members) (c m : Column) (i j n : ℕ)
      → i < j
      → HaveRows lib tys j n c
      → HaveRows lib tys j n (lib.set_member c i m)
  unfolding HaveRows
  set_member-HaveRows no_members c m i j n l h = tt
  set_member-HaveRows (member_and ty tys) c m i j n l (h, hs) =
      let same : lib.member (lib.set_member c i m) j ≡ lib.member c j =
        ground (arith, laws.member_set_member c m i j) in
      (rw same h, set_member-HaveRows tys c m i (suc j) n (omega arith) hs)

  -- The loop from member `i` on leaves the members before it alone.
  pub append_members-before :
      (tys : Members) (i j : ℕ) (c : Column) (es : Entries) (tmpl tmpl' : Templates Column)
      (c' : Column)
      → append_members php lib tys i c es tmpl ≡ returns (c', tmpl')
      → j < i
      → lib.member c' j ≡ lib.member c j
  unfolding append_members
  append_members-before no_members i j c nil tmpl tmpl' c' h l =
      ap (λ q. lib.member q.0 j) (sym (returns-eq h))
  append_members-before no_members i j c (entry k v es) tmpl tmpl' c' h l = cc
  append_members-before (member_and ty tys) i j c nil tmpl tmpl' c' h l = cc
  append_members-before (member_and ty tys) i j c (entry k v es) tmpl tmpl' c' h l =
      let ((m, t), done, h₁) =
        >>=-eq-returns (append_value php lib ty (lib.member c i) v tmpl) _ h in
      append_members-before tys (suc i) j (lib.set_member c i m) es t tmpl' c' h₁ (omega arith)
      ∙ ground (arith, laws.member_set_member c m i j)

  -- The loop behind the first member keeps the size.
  append_members-size :
      (tys : Members) (i : ℕ) (c : Column) (es : Entries) (tmpl tmpl' : Templates Column)
      (c' : Column)
      → append_members php lib tys (suc i) c es tmpl ≡ returns (c', tmpl')
      → lib.size c' ≡ lib.size c
  unfolding append_members
  append_members-size no_members i c nil tmpl tmpl' c' h =
      ap (λ q. lib.size q.0) (sym (returns-eq h))
  append_members-size no_members i c (entry k v es) tmpl tmpl' c' h = cc
  append_members-size (member_and ty tys) i c nil tmpl tmpl' c' h = cc
  append_members-size (member_and ty tys) i c (entry k v es) tmpl tmpl' c' h =
      let ((m, t), done, h₁) =
        >>=-eq-returns (append_value php lib ty (lib.member c (suc i)) v tmpl) _ h in
      append_members-size tys (suc i) (lib.set_member c (suc i) m) es t tmpl' c' h₁
      ∙ laws.size_set_later c m i

  -- After the loop over all members the tuple is as long as its first.
  append_members-first :
      (tys : Members) (c : Column) (es : Entries) (tmpl tmpl' : Templates Column) (c' : Column)
      → HasMember tys
      → append_members php lib tys 0 c es tmpl ≡ returns (c', tmpl')
      → lib.size c' ≡ lib.size (lib.member c' 0)
  unfolding append_members
  append_members-first no_members c es tmpl tmpl' c' p h = absurd p
  append_members-first (member_and ty tys) c nil tmpl tmpl' c' p h = cc
  append_members-first (member_and ty tys) c (entry k v es) tmpl tmpl' c' p h =
      let ((m, t), done, h₁) =
        >>=-eq-returns (append_value php lib ty (lib.member c 0) v tmpl) _ h in
      let c₁ = lib.set_member c 0 m in
      let kept : lib.member c' 0 ≡ m =
        append_members-before tys 1 0 c₁ es t tmpl' c' h₁ (omega arith)
        ∙ ground (arith, laws.member_set_member c m 0 0) in
      append_members-size tys 0 c₁ es t tmpl' c' h₁
      ∙ laws.size_set_first c m
      ∙ ap lib.size (sym kept)

  first-HaveRows :
      (tys : Members) (n : ℕ) (c : Column)
      → HasMember tys
      → HaveRows lib tys 0 n c
      → lib.size (lib.member c 0) ≡ n
  unfolding HaveRows
  first-HaveRows no_members n c p h = absurd p
  first-HaveRows (member_and ty tys) n c p h = size-HasRows lib ty n (lib.member c 0) h.0

  tuple-Grows :
      (tys : Members)
      → ((c : Column) (es : Entries) (tmpl tmpl' : Templates Column) (c' : Column) (n : ℕ)
          → append_members php lib tys 0 c es tmpl ≡ returns (c', tmpl')
          → HaveRows lib tys 0 n c
          → HaveRows lib tys 0 (suc n) c')
      → Grows (tuple_of tys) (append_tuple lib (append_members php lib tys 0))
  unfolding Grows HasRows append_tuple
  tuple-Grows tys g c v tmpl tmpl' c' n h (size, some_member, s) =
      let (es, array, h₁) =
        >>=-eq-returns (expect_array "clickhouse: a Tuple column expects a PHP array" v) _ h in
      let rows = g c es tmpl tmpl' c' n h₁ s in
      (
        append_members-first tys c es tmpl tmpl' c' some_member h₁
            ∙ first-HaveRows tys (suc n) c' some_member rows,
        some_member,
        rows,
      )

  mutual
    unfolding append_value HasRows Grows unsupported

    append_value-Grows : (ty : ColumnType) → Grows ty (append_value php lib ty)
    append_value-Grows (scalar code) = scalar-Grows code
    append_value-Grows (nullable ty) =
        nullable-Grows ty (append_value php lib ty) (append_value-Grows ty)
    append_value-Grows (array_of ty) = array-Grows ty (append_value php lib ty)
    append_value-Grows (tuple_of tys) = tuple-Grows tys (append_members-grow tys 0)
    append_value-Grows (map_of kt vt) =
        map-Grows kt vt (append_value php lib kt) (append_value php lib vt)
    append_value-Grows low_cardinality = λ c v tmpl tmpl' c' n h s. cc

    append_members-grow :
        (tys : Members) (i : ℕ) (c : Column) (es : Entries) (tmpl tmpl' : Templates Column)
        (c' : Column) (n : ℕ)
        → append_members php lib tys i c es tmpl ≡ returns (c', tmpl')
        → HaveRows lib tys i n c
        → HaveRows lib tys i (suc n) c'
    append_members-grow no_members i c es tmpl tmpl' c' n h s = tt
    append_members-grow (member_and ty tys) i c nil tmpl tmpl' c' n h s = cc
    append_members-grow (member_and ty tys) i c (entry k v es) tmpl tmpl' c' n h (s, ss) =
        let ((m, t), done, h₁) =
          >>=-eq-returns (append_value php lib ty (lib.member c i) v tmpl) _ h in
        let c₁ = lib.set_member c i m in
        let kept : lib.member c' i ≡ m =
          append_members-before tys (suc i) i c₁ es t tmpl' c' h₁ (omega arith)
          ∙ ground (arith, laws.member_set_member c m i i) in
        (
          rw kept (append_value-Grows ty (lib.member c i) v tmpl t m n done s),
          append_members-grow tys (suc i) c₁ es t tmpl' c' n h₁
              (set_member-HaveRows tys c m i (suc i) n (omega arith) ss),
        )

  -- Appending a value to a column, where it does not throw, adds one row to the column, and to the flags and
  -- the nested column of a Nullable and to each member of a Tuple inside it, so that these stay as long
  -- as one another; whatever the value is, null included.
  pub append_value-HasRows :
      (ty : ColumnType) (c : Column) (v : Zval) (tmpl tmpl' : Templates Column) (c' : Column)
      (n : ℕ)
      → append_value php lib ty c v tmpl ≡ returns (c', tmpl')
      → HasRows lib ty n c
      → HasRows lib ty (suc n) c'
  unfolding Grows
  append_value-HasRows ty c v tmpl tmpl' c' n h s = append_value-Grows ty c v tmpl tmpl' c' n h s
