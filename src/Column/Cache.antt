-- ===== src/Column/Cache.antt =====
-- The cache of Map templates in `ch_append_value` does not change what is appended.
use php_clickhouse.Base.{
  ℕ, ◌≡◌, refl, sym, subst, inl, inr, Bool-cases, [], ◌∷◌, Option, none, some, Option-cases, ◌⊎◌,
  ◌==◌, ==_iff, arith,
}
use php_clickhouse.Errors.{Outcome, returns, throws, ◌>>=◌, invalid}
use php_clickhouse.Php.{Zval}
use php_clickhouse.Column.{ColumnType, map_of, Columns}
use php_clickhouse.Column.Append.{
  Templates, find_template, Appended, Appender, created, templates_of,
}
use php_clickhouse.Column.Types.{KeepsTypes, Typed}

-- Both return, and what they return is related; or both throw the same.
abbrev pub Same : {A : Type 0} → (A → A → Type 0) → Outcome A → Outcome A → Type 0
Same R (returns a) (returns b) = R a b
Same R (throws e) (throws e') = e ≡ e'
Same R (returns a) (throws e) = ⊥
Same R (throws e) (returns b) = ⊥

module _ {A B : Type 0} (S : B → B → Type 0) where
  pub Same-bind :
      (R : A → A → Type 0) (m n : Outcome A) (f g : A → Outcome B)
      → Same R m n
      → ((a b : A) → R a b → Same S (f a) (g b))
      → Same S (m >>= f) (n >>= g)
  Same-bind R (returns a) (returns b) f g r k = k a b r
  Same-bind R (throws e) (throws e') f g r k = r
  Same-bind R (returns a) (throws e) f g r k = absurd r
  Same-bind R (throws e) (returns b) f g r k = absurd r

  -- The same call on both sides.
  pub Same-after :
      (m : Outcome A) (f g : A → Outcome B)
      → ((a : A) → m ≡ returns a → Same S (f a) (g a))
      → Same S (m >>= f) (m >>= g)
  Same-after (returns a) f g k = k a refl
  Same-after (throws e) f g k = refl

module _ {Column : Type 0} (lib : Columns Column) (type_of : Column → ColumnType)
    (lives : Column → Type 0) where
  -- The cache holds what a column of a Map type that stays alive would create.
  abbrev pub Known : Templates Column → Type 0
  Known [] = Unit
  Known ((id, k, v) ∷ tmpl) =
      ((c : Column) (kt vt : ColumnType)
        → lives c
        → lib.type_id c ≡ id
        → type_of c ≡ map_of kt vt
        → (lib.create kt ≡ some k) × (lib.create vt ≡ some v))
      × Known tmpl

  -- A column of a type with the caches that two runs have.
  abbrev pub Agree : ColumnType → Column × Templates Column → Column × Templates Column → Type 0
  Agree ty (c, s) (c', t) = (c ≡ c') × Typed type_of lives ty c × Known s × Known t

  -- An appender of one type appends the same with any two caches.
  abbrev pub Agrees : ColumnType → Appender lib → Type 0
  Agrees ty append =
      (c : Column) (v : Zval) (s t : Templates Column)
      → Typed type_of lives ty c
      → Known s
      → Known t
      → Same (Agree ty) (append c v s) (append c v t)

  pub Agree-bind :
      {B : Type 0} (S : B → B → Type 0) (ty : ColumnType) (m n : Appended Column)
      (f g : Column × Templates Column → Outcome B)
      → Same (Agree ty) m n
      → ((c : Column) (s t : Templates Column)
          → Typed type_of lives ty c
          → Known s
          → Known t
          → Same S (f (c, s)) (g (c, t)))
      → Same S (m >>= f) (n >>= g)
  Agree-bind S ty m n f g r k =
      Same-bind S (Agree ty) m n f g r
        (λ a b q. subst (λ c. Same S (f a) (g (c, b.1))) q.0 (k a.0 a.1 b.1 q.1 q.2 q.3))

  -- The templates of a Map type, with the cache that holds them.
  abbrev pub Templated :
      (kt vt : ColumnType)
      → (Column × Column) × Templates Column
      → (Column × Column) × Templates Column
      → Type 0
  Templated kt vt (kv, s) (kv', t) =
      (kv ≡ kv') × (lib.create kt ≡ some kv.0) × (lib.create vt ≡ some kv.1) × Known s × Known t

module _ {Column : Type 0} (lib : Columns Column) (type_of : Column → ColumnType)
    {lives : Column → Type 0} (laws : KeepsTypes lib type_of lives) where
  find_template-Known :
      (tmpl : Templates Column) (c k v : Column) (kt vt : ColumnType)
      → Known lib type_of lives tmpl
      → find_template (lib.type_id c) tmpl ≡ some (k, v)
      → Typed type_of lives (map_of kt vt) c
      → (lib.create kt ≡ some k) × (lib.create vt ≡ some v)
  unfolding find_template
  find_template-Known [] c k v kt vt known h e = cc
  find_template-Known ((i, k', v') ∷ tmpl) c k v kt vt (this, known) h e =
      elim (Bool-cases (i == lib.type_id c)) [
        | inl same ↦
            let (a, b) = this c kt vt e.2 (sym ((==_iff i (lib.type_id c)).0 same)) e.0 in
            let found : ◌≡◌ {A = Option (Column × Column)} (some (k', v')) (some (k, v)) =
              rw same at h in
            (ground arith, ground arith)
        | inr other ↦ find_template-Known tmpl c k v kt vt known (rw other at h) e
      ]

  -- What is put into the cache is what any column of that address would create.
  entry-Known :
      (c k v : Column) (kt vt : ColumnType)
      → Typed type_of lives (map_of kt vt) c
      → lib.create kt ≡ some k
      → lib.create vt ≡ some v
      → (c' : Column) (kt' vt' : ColumnType) → lives c'
      → lib.type_id c' ≡ lib.type_id c
      → type_of c' ≡ map_of kt' vt'
      → (lib.create kt' ≡ some k) × (lib.create vt' ≡ some v)
  entry-Known c k v kt vt e hk hv c' kt' vt' live same e' =
      let types : map_of kt' vt' ≡ map_of kt vt =
        laws.same_id c' c kt' vt' kt vt live e.2 e' e.0 same in
      (cc, cc)

  templates_of-found :
      (c k v : Column) (kt vt : ColumnType) (tmpl : Templates Column)
      → Known lib type_of lives tmpl
      → Typed type_of lives (map_of kt vt) c
      → lib.create kt ≡ some k
      → lib.create vt ≡ some v
      → (tmpl' : Templates Column) × (templates_of lib kt vt (lib.type_id c) tmpl
          ≡ returns ((k, v), tmpl'))
        × Known lib type_of lives tmpl'
  unfolding templates_of created
  templates_of-found c k v kt vt tmpl known e hk hv =
      elim (Option-cases (find_template (lib.type_id c) tmpl)) [
        | inl missing ↦ (
          (lib.type_id c, k, v) ∷ tmpl,
          rw (missing, hk, hv, templates_of),
          (entry-Known c k v kt vt e hk hv, known),
        )
        | inr ((k', v'), found) ↦
            let (a, b) = find_template-Known tmpl c k' v' kt vt known found e in
            (tmpl, rw (found, templates_of) (ground arith), known)
      ]

  created-missing :
      (id : ℕ) (k v : Option Column) (tmpl : Templates Column)
      → ((k ≡ none) ⊎ (v ≡ none))
      → created lib id k v tmpl ≡ invalid "clickhouse: unsupported Map key/value type"
  unfolding created
  created-missing id none v tmpl h = refl
  created-missing id (some k) none tmpl h = refl
  created-missing id (some k) (some v) tmpl h = absurd (ground arith)

  templates_of-missing :
      (c : Column) (kt vt : ColumnType) (tmpl : Templates Column)
      → Known lib type_of lives tmpl
      → Typed type_of lives (map_of kt vt) c
      → ((lib.create kt ≡ none) ⊎ (lib.create vt ≡ none))
      → templates_of lib kt vt (lib.type_id c) tmpl
        ≡ invalid "clickhouse: unsupported Map key/value type"
  unfolding templates_of created
  templates_of-missing c kt vt tmpl known e h =
      elim (Option-cases (find_template (lib.type_id c) tmpl)) [
        | inl missing ↦ rw (missing, templates_of) (created-missing _ _ _ _ h)
        | inr ((k', v'), found) ↦
            let (a, b) = find_template-Known tmpl c k' v' kt vt known found e in
            absurd (ground arith)
      ]

  pub templates_of-Templated :
      (c : Column) (kt vt : ColumnType) (s t : Templates Column)
      → Typed type_of lives (map_of kt vt) c
      → Known lib type_of lives s
      → Known lib type_of lives t
      → Same
          (Templated lib type_of lives kt vt)
          (templates_of lib kt vt (lib.type_id c) s)
          (templates_of lib kt vt (lib.type_id c) t)
  templates_of-Templated c kt vt s t e ks kt' = elim (Option-cases (lib.create kt)) [
    | inl hk ↦
        rw
          (
            templates_of-missing c kt vt s ks e (inl hk),
            templates_of-missing c kt vt t kt' e (inl hk),
          )
          refl
    | inr (k, hk) ↦ elim (Option-cases (lib.create vt)) [
      | inl hv ↦
          rw
            (
              templates_of-missing c kt vt s ks e (inr hv),
              templates_of-missing c kt vt t kt' e (inr hv),
            )
            refl
      | inr (v, hv) ↦
          let (s', es, ks') = templates_of-found c k v kt vt s ks e hk hv in
          let (t', et, kt'') = templates_of-found c k v kt vt t kt' e hk hv in
          rw (es, et) (refl, hk, hv, ks', kt'')
    ]
  ]
