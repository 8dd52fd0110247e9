-- ===== src/Column/Block.antt =====
-- The loops of `ch_send_block` over the rows and their cells, with the cache of Map templates that lives for one
-- call, and the same loops of Insert.antt with an append that starts with an empty cache.
use php_clickhouse.Base.{
  ◌≡◌, refl, ap, sym, subst, inl, inr, Bytes, List, [], ◌∷◌, map, length, All, Bool-cases, ◌==◌,
}
use php_clickhouse.Errors.{Outcome, returns, throws, ◌>>=◌, invalid}
use php_clickhouse.Php.{Zval, Engine}
use php_clickhouse.Insert.{
  InsertRow, cells, not_array, Library, fill_cells, fill_row, fill_rows, fill_block, check_count,
}
use php_clickhouse.Column.{ColumnType, Columns}
use php_clickhouse.Column.Append.{Templates, Appended, append_value}
use php_clickhouse.Column.Types.{Steady, KeepsTypes}
use php_clickhouse.Column.Cache.{Same, Known, Agree}
use php_clickhouse.Column.Agreement.{append_value-Agrees}

-- What is left of an outcome without the cache.
unfoldable pub without_cache : {A Column : Type 0} → Outcome (A × Templates Column) → Outcome A
without_cache (returns q) = returns q.0
without_cache (throws e) = throws e

module _ {Column : Type 0} (php : Engine) (lib : Columns Column)
    (type_of : Column → ColumnType) where
  -- switch (col->Type()->GetCode())
  unfoldable pub append_typed : Column → Zval → Templates Column → Appended Column
  append_typed c = append_value php lib (type_of c) c

  -- With an empty cache, which is dropped.
  unfoldable pub append_cell : Column → Zval → Outcome Column
  append_cell c v = without_cache (append_typed c v [])

  unfoldable pub fill_cells_cached :
      List Column → List Zval → Templates Column → Outcome (List Column × Templates Column)
  fill_cells_cached [] [] tmpl = returns ([], tmpl)
  fill_cells_cached [] (x ∷ xs) tmpl = invalid "clickhouse: insert row has more values than columns"
  fill_cells_cached (c ∷ cs) [] tmpl =
      invalid "clickhouse: insert row has fewer values than columns"
  fill_cells_cached (c ∷ cs) (x ∷ xs) tmpl = do
    (c', tmpl') ← append_typed c x tmpl
    (cs', tmpl'') ← fill_cells_cached cs xs tmpl'
    returns (c' ∷ cs', tmpl'')

  unfoldable pub fill_row_cached :
      List Column → InsertRow Zval → Templates Column → Outcome (List Column × Templates Column)
  fill_row_cached cols not_array tmpl = invalid "clickhouse: each insert row must be an array"
  fill_row_cached cols (cells xs) tmpl = fill_cells_cached cols xs tmpl

  unfoldable pub fill_rows_cached :
      List Column
      → List (InsertRow Zval)
      → Templates Column
      → Outcome (List Column × Templates Column)
  fill_rows_cached cols [] tmpl = returns (cols, tmpl)
  fill_rows_cached cols (row ∷ rows) tmpl = do
    (cols', tmpl') ← fill_row_cached cols row tmpl
    fill_rows_cached cols' rows tmpl'

  -- The cache is empty when the block is begun.
  unfoldable pub fill_block_cached :
      List Bytes → List (InsertRow Zval) → List Column → Outcome (List Column × Templates Column)
  fill_block_cached names rows sample = do
    checked ← check_count (length names) sample
    fill_rows_cached (map lib.clone_empty checked) rows []

module _ {Column : Type 0} (lib : Columns Column) (type_of : Column → ColumnType)
    (lives : Column → Type 0) where
  -- No Map of the column is inside an Array or a Map, and its Map types stay alive.
  abbrev pub Lasting : Column → Type 0
  Lasting c = Steady (type_of c) × lives c

  abbrev pub AllLasting : List Column → Type 0
  AllLasting = All Lasting

  -- A run with a cache and one without, whose results are such columns.
  abbrev Follows : {A : Type 0} → (A → Type 0) → Outcome (A × Templates Column) → Outcome A → Type 0
  Follows P (returns q) (returns a) = (q.0 ≡ a) × Known lib type_of lives q.1 × P a
  Follows P (throws e) (throws e') = e ≡ e'
  Follows P (returns q) (throws e) = ⊥
  Follows P (throws e) (returns a) = ⊥

  Follows-bind :
      {A B : Type 0} (P : A → Type 0) (Q : B → Type 0) (m : Outcome (A × Templates Column))
      (n : Outcome A) (f : A × Templates Column → Outcome (B × Templates Column))
      (g : A → Outcome B)
      → Follows P m n
      → ((a : A) (t : Templates Column)
          → Known lib type_of lives t
          → P a
          → Follows Q (f (a, t)) (g a))
      → Follows Q (m >>= f) (n >>= g)
  Follows-bind P Q (returns q) (returns a) f g r k =
      subst (λ x. Follows Q (f q) (g x)) r.0 (k q.0 q.1 r.1 (subst P (sym r.0) r.2))
  Follows-bind P Q (throws e) (throws e') f g r k = r
  Follows-bind P Q (returns q) (throws e) f g r k = absurd r
  Follows-bind P Q (throws e) (returns a) f g r k = absurd r

  Agree-Follows :
      (ty : ColumnType) (m n : Appended Column)
      → Same (Agree lib type_of lives ty) m n
      → Follows Lasting m (without_cache n)
  unfolding without_cache
  Agree-Follows ty (returns q) (returns r) (same, (e, s, l), k, k') =
      (same, k, subst Lasting same (subst Steady (sym e) s, l))
  Agree-Follows ty (throws e) (throws e') s = s
  Agree-Follows ty (returns q) (throws e) s = s
  Agree-Follows ty (throws e) (returns r) s = s

  Follows-eq :
      {A : Type 0} (P : A → Type 0) (m : Outcome (A × Templates Column)) (n : Outcome A)
      → Follows P m n
      → without_cache m ≡ n
  unfolding without_cache
  Follows-eq P (returns q) (returns a) f = ap returns f.0
  Follows-eq P (throws e) (throws e') f = ap throws f
  Follows-eq P (returns q) (throws e) f = absurd f
  Follows-eq P (throws e) (returns a) f = absurd f

module _ {Column : Type 0} (php : Engine) (lib : Columns Column) (type_of : Column → ColumnType)
    {lives : Column → Type 0} (laws : KeepsTypes lib type_of lives) where
  append_cell-Follows :
      (c : Column) (v : Zval) (t : Templates Column)
      → Known lib type_of lives t
      → Lasting lib type_of lives c
      → Follows lib type_of lives
          (Lasting lib type_of lives)
          (append_typed php lib type_of c v t)
          (append_cell php lib type_of c v)
  unfolding append_typed append_cell
  append_cell-Follows c v t kt (s, l) =
      Agree-Follows lib type_of lives (type_of c) _ _
        (append_value-Agrees php lib type_of laws (type_of c) c v t [] (refl, s, l) kt tt)

  fill_cells-Follows :
      (cs : List Column) (xs : List Zval) (t : Templates Column)
      → Known lib type_of lives t
      → AllLasting lib type_of lives cs
      → Follows lib type_of lives
          (AllLasting lib type_of lives)
          (fill_cells_cached php lib type_of cs xs t)
          (fill_cells (append_cell php lib type_of) cs xs)
  unfolding fill_cells_cached fill_cells
  fill_cells-Follows [] [] t kt ls = (refl, kt, tt)
  fill_cells-Follows [] (x ∷ xs) t kt ls = refl
  fill_cells-Follows (c ∷ cs) [] t kt ls = refl
  fill_cells-Follows (c ∷ cs) (x ∷ xs) t kt (this, ls) =
      Follows-bind lib type_of lives (Lasting lib type_of lives) (AllLasting lib type_of lives) _ _
        _ _ (append_cell-Follows c x t kt this)
        λ c' t' kt' this'.
          Follows-bind lib type_of lives (AllLasting lib type_of lives)
            (AllLasting lib type_of lives) _ _ _ _ (fill_cells-Follows cs xs t' kt' ls)
            λ cs' t'' kt'' ls'. (refl, kt'', (this', ls'))

  fill_row-Follows :
      (cs : List Column) (row : InsertRow Zval) (t : Templates Column)
      → Known lib type_of lives t
      → AllLasting lib type_of lives cs
      → Follows lib type_of lives
          (AllLasting lib type_of lives)
          (fill_row_cached php lib type_of cs row t)
          (fill_row (append_cell php lib type_of) cs row)
  unfolding fill_row_cached fill_row
  fill_row-Follows cs not_array t kt ls = refl
  fill_row-Follows cs (cells xs) t kt ls = fill_cells-Follows cs xs t kt ls

  fill_rows-Follows :
      (cs : List Column) (rows : List (InsertRow Zval)) (t : Templates Column)
      → Known lib type_of lives t
      → AllLasting lib type_of lives cs
      → Follows lib type_of lives
          (AllLasting lib type_of lives)
          (fill_rows_cached php lib type_of cs rows t)
          (fill_rows (append_cell php lib type_of) cs rows)
  unfolding fill_rows_cached fill_rows
  fill_rows-Follows cs [] t kt ls = (refl, kt, ls)
  fill_rows-Follows cs (row ∷ rows) t kt ls =
      Follows-bind lib type_of lives (AllLasting lib type_of lives) (AllLasting lib type_of lives) _
        _ _ _ (fill_row-Follows cs row t kt ls)
        λ cs' t' kt' ls'. fill_rows-Follows cs' rows t' kt' ls'

  -- The block that is filled with the cache, which one call shares among all its cells, is the block that is filled
  -- without a cache, or the same exception is thrown, if the Map types of the columns stay alive.
  pub fill_block_cached-fill_block :
      (wire : Library Column) (names : List Bytes) (rows : List (InsertRow Zval))
      (sample : List Column)
      → wire.clone_empty ≡ lib.clone_empty
      → AllLasting lib type_of lives (map wire.clone_empty sample)
      → without_cache (fill_block_cached php lib type_of names rows sample)
        ≡ fill_block (append_cell php lib type_of) wire names rows sample
  unfolding fill_block_cached fill_block check_count without_cache
  fill_block_cached-fill_block wire names rows sample e ls =
      elim (Bool-cases (length sample == length names)) [
        | inl same ↦
            rw (same, e)
              (Follows-eq lib type_of lives (AllLasting lib type_of lives) _ _
                (fill_rows-Follows (map lib.clone_empty sample) rows [] tt (rw e at ls)))
        | inr other ↦ rw other refl
      ]
