-- ===== src/Column/Agreement.antt =====
-- Two runs of `ch_append_value` with caches of Map templates that need not be the same.
use php_clickhouse.Base.{ℕ, suc, ◌≡◌, refl, subst, inl, inr, Bool, true, false, Bool-cases, some}
use php_clickhouse.Base.Int.{pos}
use php_clickhouse.Errors.{returns, ◌>>=◌}
use php_clickhouse.Php.{Zval, is_long, Entries, nil, entry, Engine}
use php_clickhouse.Column.{
  Code, ColumnType, scalar, nullable, array_of, tuple_of, map_of, low_cardinality, Members,
  no_members, member_and, Columns,
}
use php_clickhouse.Column.Append.{
  Templates, Appended, Appender, key_value, input_of, expect_array, null_value, flagged,
  append_nullable, append_each, append_array, append_tuple, append_pairs, one_row, append_to_map,
  append_scalar, append_value, append_members, unsupported,
}
use php_clickhouse.Column.Types.{
  drop_members, drop_members-suc, KeepsTypes, Typed, append-Typed, nested-Typed, flagged-Typed,
  element-Typed, array-Typed, member-Typed, set_member-Typed, map-Typed, templates-Typed,
}
use php_clickhouse.Column.Cache.{
  Same, Same-bind, Same-after, Known, Agree, Agrees, Agree-bind, Templated, templates_of-Templated,
}

module _ {Column : Type 0} (php : Engine) (lib : Columns Column) (type_of : Column → ColumnType)
    {lives : Column → Type 0} (laws : KeepsTypes lib type_of lives) where
  append_scalar-Agrees :
      (code : Code) → Agrees lib type_of lives (scalar code) (append_scalar php lib code)
  unfolding append_scalar
  append_scalar-Agrees code c v s t e ks kt =
      Same-after _ (input_of php code (lib.type_name c) v) _ _ λ d _.
        Same-after _ (lib.append code d c) _ _
          λ c' done. (refl, append-Typed lib type_of laws code d c c' done e, ks, kt)

  flagged-Agrees :
      (ty : ColumnType) (append : Appender lib) (c : Column) (v : Zval) (b : Bool)
      (s t : Templates Column)
      → Agrees lib type_of lives ty append
      → Typed type_of lives (nullable ty) c
      → Known lib type_of lives s
      → Known lib type_of lives t
      → Same
          (Agree lib type_of lives (nullable ty))
          (append (lib.nested c) v s >>= flagged lib c b)
          (append (lib.nested c) v t >>= flagged lib c b)
  unfolding flagged
  flagged-Agrees ty append c v b s t g e ks kt =
      Agree-bind lib type_of lives _ ty _ _ _ _
        (g (lib.nested c) v s t (nested-Typed lib type_of laws ty c e) ks kt)
        λ m s' t' em ks' kt'. (refl, flagged-Typed lib type_of laws ty b c m e em, ks', kt')

  append_nullable-Agrees :
      (ty : ColumnType) (append : Appender lib)
      → Agrees lib type_of lives ty append
      → Agrees lib type_of lives (nullable ty) (append_nullable lib append)
  unfolding append_nullable
  append_nullable-Agrees ty append g c v s t e ks kt = elim (Bool-cases (null_value v)) [
    | inl null ↦ rw null (flagged-Agrees ty append c (is_long (pos 0)) true s t g e ks kt)
    | inr other ↦ rw other (flagged-Agrees ty append c v false s t g e ks kt)
  ]

  append_each-Agree :
      (ty : ColumnType) (append : Appender lib) (es : Entries) (c : Column) (s t : Templates Column)
      → Agrees lib type_of lives ty append
      → Typed type_of lives ty c
      → Known lib type_of lives s
      → Known lib type_of lives t
      → Same
          (Agree lib type_of lives ty)
          (append_each lib append es c s)
          (append_each lib append es c t)
  unfolding append_each
  append_each-Agree ty append nil c s t g e ks kt = (refl, e, ks, kt)
  append_each-Agree ty append (entry k v es) c s t g e ks kt =
      Agree-bind lib type_of lives _ ty _ _ _ _ (g c v s t e ks kt)
        λ c' s' t' e' ks' kt'. append_each-Agree ty append es c' s' t' g e' ks' kt'

  append_array-Agrees :
      (ty : ColumnType) (append : Appender lib)
      → Agrees lib type_of lives ty append
      → Agrees lib type_of lives (array_of ty) (append_array lib append)
  unfolding append_array
  append_array-Agrees ty append g c v s t e ks kt =
      Same-after _ (expect_array "clickhouse: an Array column expects a PHP array" v) _ _ λ es _.
        Agree-bind lib type_of lives _ ty _ _ _ _
          (append_each-Agree ty append es (lib.clone_empty (lib.array_data c)) s t g
            (element-Typed lib type_of laws ty c e) ks kt)
          λ elements s' t' e' ks' kt'.
            Same-after _ (lib.append_as_column elements c) _ _
              λ c' done. (refl, array-Typed lib type_of laws ty elements c c' done e, ks', kt')

  abbrev PairAgree :
      (kt vt : ColumnType)
      → (Column × Column) × Templates Column
      → (Column × Column) × Templates Column
      → Type 0
  PairAgree kt vt (kv, s) (kv', t) =
      (kv ≡ kv') × Known lib type_of lives s × Known lib type_of lives t

  append_pairs-Agree :
      (kt vt : ColumnType) (append_k append_v : Appender lib) (es : Entries) (k v : Column)
      (s t : Templates Column)
      → Agrees lib type_of lives kt append_k
      → Agrees lib type_of lives vt append_v
      → Typed type_of lives kt k
      → Typed type_of lives vt v
      → Known lib type_of lives s
      → Known lib type_of lives t
      → Same
          (PairAgree kt vt)
          (append_pairs lib append_k append_v es k v s)
          (append_pairs lib append_k append_v es k v t)
  unfolding append_pairs
  append_pairs-Agree kt vt append_k append_v nil k v s t gk gv ek ev ks kt' = (refl, ks, kt')
  append_pairs-Agree kt vt append_k append_v (entry key x es) k v s t gk gv ek ev ks kt' =
      Agree-bind lib type_of lives _ kt _ _ _ _ (gk k (key_value key) s t ek ks kt')
        λ k₁ s₁ t₁ ek₁ ks₁ kt₁.
          Agree-bind lib type_of lives _ vt _ _ _ _ (gv v x s₁ t₁ ev ks₁ kt₁)
            λ v₁ s₂ t₂ ev₁ ks₂ kt₂.
              append_pairs-Agree kt vt append_k append_v es k₁ v₁ s₂ t₂ gk gv ek₁ ev₁ ks₂ kt₂

  -- What an append to a map does once it has its templates.
  abbrev with_templates :
      Appender lib
      → Appender lib
      → Entries
      → Column
      → (Column × Column) × Templates Column
      → Appended Column
  with_templates append_k append_v es c kvt =
      append_pairs lib append_k append_v es (lib.clone_empty kvt.0.0) (lib.clone_empty kvt.0.1)
        kvt.1
      >>= λ q. one_row lib q.0.0 q.0.1 >>= λ row. lib.append_map row c >>= λ c'. returns (c', q.1)

  with_templates-Agree :
      (kt vt : ColumnType) (append_k append_v : Appender lib) (es : Entries) (c k v : Column)
      (s t : Templates Column)
      → Agrees lib type_of lives kt append_k
      → Agrees lib type_of lives vt append_v
      → Typed type_of lives (map_of kt vt) c
      → lib.create kt ≡ some k
      → lib.create vt ≡ some v
      → Known lib type_of lives s
      → Known lib type_of lives t
      → Same
          (Agree lib type_of lives (map_of kt vt))
          (with_templates append_k append_v es c ((k, v), s))
          (with_templates append_k append_v es c ((k, v), t))
  with_templates-Agree kt vt append_k append_v es c k v s t gk gv e hk hv ks kt' =
      let typed = templates-Typed lib type_of laws kt vt c k v e hk hv in
      Same-bind _ (PairAgree kt vt) _ _ _ _
        (append_pairs-Agree kt vt append_k append_v es (lib.clone_empty k) (lib.clone_empty v) s t
          gk gv typed.0 typed.1 ks kt')
        λ a b q.
          subst
            (λ kv.
              Same (Agree lib type_of lives (map_of kt vt))
                (one_row lib a.0.0 a.0.1 >>= λ row.
                  lib.append_map row c >>= λ c'. returns (c', a.1))
                (one_row lib kv.0 kv.1 >>= λ row. lib.append_map row c >>= λ c'. returns (c', b.1)))
            q.0
            (Same-after _ (one_row lib a.0.0 a.0.1) _ _ λ row _.
              Same-after _ (lib.append_map row c) _ _
                λ c' done. (refl, map-Typed lib type_of laws kt vt row c c' done e, q.1, q.2))

  append_to_map-Agrees :
      (kt vt : ColumnType) (append_k append_v : Appender lib)
      → Agrees lib type_of lives kt append_k
      → Agrees lib type_of lives vt append_v
      → Agrees lib type_of lives (map_of kt vt) (append_to_map lib kt vt append_k append_v)
  unfolding append_to_map
  append_to_map-Agrees kt vt append_k append_v gk gv c v s t e ks kt' =
      Same-after _ (expect_array "clickhouse: a Map column expects a PHP array" v) _ _ λ es _.
        Same-bind _ (Templated lib type_of lives kt vt) _ _ _ _
          (templates_of-Templated lib type_of laws c kt vt s t e ks kt')
          λ a b q.
            subst
              (λ kv.
                Same (Agree lib type_of lives (map_of kt vt))
                  (with_templates append_k append_v es c a)
                  (with_templates append_k append_v es c (kv, b.1)))
              q.0
              (with_templates-Agree kt vt append_k append_v es c a.0.0 a.0.1 a.1 b.1 gk gv e q.1 q.2
                q.3 q.4)

  mutual
    unfolding append_value append_members append_tuple unsupported

    pub append_value-Agrees :
        (ty : ColumnType) → Agrees lib type_of lives ty (append_value php lib ty)
    append_value-Agrees (scalar code) = append_scalar-Agrees code
    append_value-Agrees (nullable ty) = append_nullable-Agrees ty _ (append_value-Agrees ty)
    append_value-Agrees (array_of ty) = append_array-Agrees ty _ (append_value-Agrees ty)
    append_value-Agrees (tuple_of tys) = λ c v s t e ks kt.
        Same-after _ (expect_array "clickhouse: a Tuple column expects a PHP array" v) _ _
          λ es _. append_members-Agree tys tys 0 c es s t e refl ks kt
    append_value-Agrees (map_of kt vt) =
        append_to_map-Agrees kt vt _ _ (append_value-Agrees kt) (append_value-Agrees vt)
    append_value-Agrees low_cardinality = λ c v s t e ks kt. refl

    pub append_members-Agree :
        (all tys : Members) (i : ℕ) (c : Column) (es : Entries) (s t : Templates Column)
        → Typed type_of lives (tuple_of all) c
        → drop_members i all ≡ tys
        → Known lib type_of lives s
        → Known lib type_of lives t
        → Same
            (Agree lib type_of lives (tuple_of all))
            (append_members php lib tys i c es s)
            (append_members php lib tys i c es t)
    append_members-Agree all no_members i c nil s t e d ks kt = (refl, e, ks, kt)
    append_members-Agree all no_members i c (entry k v es) s t e d ks kt = refl
    append_members-Agree all (member_and ty tys) i c nil s t e d ks kt = refl
    append_members-Agree all (member_and ty tys) i c (entry k v es) s t e d ks kt =
        Agree-bind lib type_of lives _ ty _ _ _ _
          (append_value-Agrees ty (lib.member c i) v s t
            (member-Typed lib type_of laws all tys ty c i e d) ks kt)
          λ m s' t' em ks' kt'.
            append_members-Agree all tys (suc i) (lib.set_member c i m) es s' t'
              (set_member-Typed lib type_of laws all tys ty c m i e d em)
              (drop_members-suc i all tys ty d) ks' kt'
