-- ===== src/Column/RoundTrip.antt =====
-- A value that is written into a column is read back.
use php_clickhouse.Base.{
  ℕ, suc, ◌≡◌, inl, inr, refl, ap, subst, ◌∙◌, Bytes, String, Bool, true, false, arith,
  if◌then◌else◌, Bool-cases,
}
use php_clickhouse.Base.Int.{ℤ, pos}
use php_clickhouse.Errors.{returns, ◌>>=◌, >>=-eq-returns, returns-eq}
use php_clickhouse.Php.{Zval, is_null, is_long, Entries, nil, entry, Engine}
use php_clickhouse.Column.{
  Code, ColumnType, scalar, nullable, array_of, tuple_of, map_of, low_cardinality, Members,
  no_members, member_and, Columns,
}
use php_clickhouse.Column.Append.{
  Templates, Appender, input_of, expect_array, null_value, flagged, append_nullable, append_tuple,
  append_scalar, append_value, append_members,
}
use php_clickhouse.Column.Read.{read_scalar, read_nullable, column_value, members_value}
use php_clickhouse.Column.Rows.{append_members-before, set_member-HaveRows}
use php_clickhouse.Column.Stored.{
  PlainCode, Plain, AllPlain, stored_scalar, in_array, unless_null, stored, stored_members,
}
use php_clickhouse.Column.Sizes.{HasRows, HaveRows}
use php_clickhouse.Column.Scalars.{input_of-Converts}
use php_clickhouse.Column.Types.{drop_members, drop_members-suc}
use php_clickhouse.Column.Types.{Typed, nested-Typed, member-Typed, set_member-Typed}
use php_clickhouse.Column.Cache.{Known}
use php_clickhouse.Column.Stores.{Documented, expect_array-eq, Stores, append_value-Known}
use php_clickhouse.Column.Arrays.{array-Stores}
use php_clickhouse.Column.Maps.{map-Stores}

module _ {Column : Type 0} (php : Engine) (show : ℤ → Bytes) (lib : Columns Column)
    (type_of : Column → ColumnType) {lives : Column → Type 0}
    (doc : Documented lib type_of lives) where
  scalar-Stores :
      (code : Code) (p : PlainCode code)
      → Stores php show lib type_of lives
          (scalar code)
          (stored_scalar php p)
          (append_scalar php lib code)
  unfolding Stores HasRows append_scalar column_value read_scalar
  scalar-Stores code p c v tmpl tmpl' c' n h s e known =
      let (d, input, h₁) = >>=-eq-returns (input_of php code (lib.type_name c) v) _ h in
      let (c₁, done, h₂) = >>=-eq-returns (lib.append code d c) _ h₁ in
      let same : c₁ ≡ c' = ap (λ q. q.0) (returns-eq h₂) in
      let (fits, read, value) = input_of-Converts php show code p (lib.type_name c) v d input in
      rw (← same, ← s, read, doc.keeps_cells.append_cell code p d c c₁ fits done, value)

  flagged-Stores :
      (ty : ColumnType) (f : Zval → Zval) (append : Appender lib) (c : Column) (v : Zval) (b : Bool)
      (tmpl tmpl' : Templates Column) (c' : Column) (n : ℕ)
      → Stores php show lib type_of lives ty f append
      → (append (lib.nested c) v tmpl >>= flagged lib c b) ≡ returns (c', tmpl')
      → HasRows lib (nullable ty) n c
      → Typed type_of lives (nullable ty) c
      → Known lib type_of lives tmpl
      → column_value php show lib (nullable ty) c' n ≡ returns (if b then is_null else f v)
  unfolding Stores HasRows flagged column_value read_nullable
  flagged-Stores ty f append c v b tmpl tmpl' c' n g h s e known =
      let ((m, t), done, h₁) = >>=-eq-returns (append (lib.nested c) v tmpl) (flagged lib c b) h in
      let same : lib.append_flag b (lib.set_nested c m) ≡ c' = ap (λ q. q.0) (returns-eq h₁) in
      let inner : lib.nested (lib.append_flag b (lib.set_nested c m)) ≡ m =
        doc.counts.flag_nested b (lib.set_nested c m) ∙ doc.counts.nested_set_nested c m in
      let size : lib.size (lib.set_nested c m) ≡ n = doc.counts.size_set_nested c m ∙ s.0 in
      let flag : lib.is_null_at (lib.append_flag b (lib.set_nested c m)) n ≡ b =
        subst (λ k. lib.is_null_at (lib.append_flag b (lib.set_nested c m)) k ≡ b) size
          (doc.keeps_cells.flag_cell b (lib.set_nested c m)) in
      let value : column_value php show lib ty m n ≡ returns (f v) =
        g (lib.nested c) v tmpl t m n done s.1 (nested-Typed lib type_of doc.types ty c e) known in
      rw (← same, flag, inner, value)
        (elim (Bool-cases b) [ inl null ↦ rw null | inr some_value ↦ rw some_value ])

  nullable-Stores :
      (ty : ColumnType) (f : Zval → Zval) (append : Appender lib)
      → Stores php show lib type_of lives ty f append
      → Stores php show lib type_of lives
          (nullable ty)
          (unless_null php f)
          (append_nullable lib append)
  unfolding Stores append_nullable unless_null
  nullable-Stores ty f append g c v tmpl tmpl' c' n h s e known = elim (Bool-cases (null_value v)) [
    | inl null ↦ rw null (
        flagged-Stores ty f append c (is_long (pos 0)) true tmpl tmpl' c' n g (rw null at h) s e
          known)
    | inr value ↦
        rw value (flagged-Stores ty f append c v false tmpl tmpl' c' n g (rw value at h) s e known)
  ]

  tuple-Stores :
      (tys : Members) (f : Entries → Entries)
      → ((c : Column) (es : Entries) (tmpl tmpl' : Templates Column) (c' : Column) (n : ℕ)
          → append_members php lib tys 0 c es tmpl ≡ returns (c', tmpl')
          → HaveRows lib tys 0 n c
          → Typed type_of lives (tuple_of tys) c
          → Known lib type_of lives tmpl
          → members_value php show lib tys 0 c' n ≡ returns (f es))
      → Stores php show lib type_of lives
          (tuple_of tys)
          (in_array php f)
          (append_tuple lib (append_members php lib tys 0))
  unfolding Stores HasRows append_tuple column_value in_array
  tuple-Stores tys f g c v tmpl tmpl' c' n h (size, some_member, s) e known =
      let what : String = "clickhouse: a Tuple column expects a PHP array" in
      let (es, array, h₁) = >>=-eq-returns (expect_array what v) _ h in
      rw (g c es tmpl tmpl' c' n h₁ s e known, expect_array-eq what v es array)

  mutual
    unfolding append_value column_value HasRows Stores stored Plain

    append_value-Stores :
        (ty : ColumnType) (p : Plain ty)
        → Stores php show lib type_of lives ty (stored php ty p) (append_value php lib ty)
    append_value-Stores (scalar code) p = scalar-Stores code p
    append_value-Stores (nullable ty) p =
        nullable-Stores ty (stored php ty p) (append_value php lib ty) (append_value-Stores ty p)
    append_value-Stores (array_of ty) p =
        array-Stores php show lib type_of doc ty (stored php ty p) (append_value-Stores ty p)
    append_value-Stores (tuple_of tys) p =
        tuple-Stores tys (stored_members php tys p 0) λ c es tmpl tmpl' c' n h s e known.
          append_members-stored tys tys p 0 c es tmpl tmpl' c' n h s e refl known
    append_value-Stores (map_of kt vt) (p, q) =
        map-Stores php show lib type_of doc kt vt (stored php kt p) (stored php vt q)
          (append_value-Stores kt p) (append_value-Stores vt q)
    append_value-Stores low_cardinality p = absurd p

    append_members-stored :
        (all tys : Members) (p : AllPlain tys) (i : ℕ) (c : Column) (es : Entries)
        (tmpl tmpl' : Templates Column) (c' : Column) (n : ℕ)
        → append_members php lib tys i c es tmpl ≡ returns (c', tmpl')
        → HaveRows lib tys i n c
        → Typed type_of lives (tuple_of all) c
        → drop_members i all ≡ tys
        → Known lib type_of lives tmpl
        → members_value php show lib tys i c' n ≡ returns (stored_members php tys p i es)
    append_members-stored all no_members p i c es tmpl tmpl' c' n h s e d known = refl
    append_members-stored all (member_and ty tys) (p, ps) i c nil tmpl tmpl' c' n h s e d known = cc
    append_members-stored all (member_and ty tys) (p, ps) i c (entry k v es) tmpl tmpl' c' n h
          (s, ss) e d known =
        let ((m, t), done, h₁) =
          >>=-eq-returns (append_value php lib ty (lib.member c i) v tmpl) _ h in
        let c₁ = lib.set_member c i m in
        let type = member-Typed lib type_of doc.types all tys ty c i e d in
        let kept : lib.member c' i ≡ m =
          append_members-before php lib doc.counts tys (suc i) i c₁ es t tmpl' c' h₁ (omega arith)
          ∙ ground (arith, doc.counts.member_set_member c m i i) in
        let (type', known') =
          append_value-Known php show lib type_of lives doc.types ty (lib.member c i) v tmpl t m
            done type known in
        let this = append_value-Stores ty p (lib.member c i) v tmpl t m n done s type known in
        let rest =
          append_members-stored all tys ps (suc i) c₁ es t tmpl' c' n h₁
            (set_member-HaveRows php lib doc.counts tys c m i (suc i) n (omega arith) ss)
            (set_member-Typed lib type_of doc.types all tys ty c m i e d type')
            (drop_members-suc i all tys ty d) known' in
        rw (kept, this, rest)

  pub column_value-append_value :
      (ty : ColumnType) (p : Plain ty) (c : Column) (v : Zval) (tmpl tmpl' : Templates Column)
      (c' : Column) (n : ℕ)
      → append_value php lib ty c v tmpl ≡ returns (c', tmpl')
      → HasRows lib ty n c
      → Typed type_of lives ty c
      → Known lib type_of lives tmpl
      → column_value php show lib ty c' n ≡ returns (stored php ty p v)
  unfolding Stores
  column_value-append_value ty p c v tmpl tmpl' c' n h s e known =
      append_value-Stores ty p c v tmpl tmpl' c' n h s e known
