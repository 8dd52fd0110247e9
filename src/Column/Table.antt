-- ===== src/Column/Table.antt =====
-- The rows that an insert puts into a block, read from that block row by row as `ch_result_next` does.
use php_clickhouse.Base.{
  ℕ, suc, ◌+◌, ◌<◌, ◌≡◌, ◌∙◌, refl, sym, ap, subst, Bytes, List, [], ◌∷◌, length, arith,
}
use php_clickhouse.Base.Int.{ℤ}
use php_clickhouse.Errors.{Outcome, returns, throws, >>=-eq-returns, returns-eq}
use php_clickhouse.Php.{Zval, Engine}
use php_clickhouse.Result.{Row, hash_update, convert_row}
use php_clickhouse.Insert.{InsertRow, cells, not_array, fill_cells, fill_row, fill_rows}
use php_clickhouse.Column.{ColumnType, Columns}
use php_clickhouse.Column.Append.{Templates, append_value}
use php_clickhouse.Column.Read.{column_value}
use php_clickhouse.Column.Sizes.{HasRows}
use php_clickhouse.Column.Rows.{append_value-HasRows}
use php_clickhouse.Column.Earlier.{append_value-keeps}
use php_clickhouse.Column.Stored.{Plain, stored}
use php_clickhouse.Column.RoundTrip.{column_value-append_value}
use php_clickhouse.Column.Stores.{Documented}
use php_clickhouse.Column.Types.{Steady, Typed}
use php_clickhouse.Column.Cache.{Same, Agree}
use php_clickhouse.Column.Agreement.{append_value-Agrees}
use php_clickhouse.Column.Block.{AllLasting, without_cache, append_typed, append_cell}

-- A type whose columns give back what is stored.
abbrev pub Sort : Type 0
Sort = (ty : ColumnType) × Plain ty

-- A row as it is read of plain columns: each value under its column's name.
unfoldable pub stored_row : Engine → List Sort → List Bytes → List Zval → Row Zval → Row Zval
stored_row php [] keys xs out = out
stored_row php (s ∷ ss) [] xs out = out
stored_row php (s ∷ ss) (k ∷ keys) [] out = out
stored_row php (s ∷ ss) (k ∷ keys) (x ∷ xs) out =
    stored_row php ss keys xs (hash_update k (stored php s.0 s.1 x) out)

without_cache-returns :
    {A Column : Type 0} (m : Outcome (A × Templates Column)) (a : A)
    → without_cache m ≡ returns a
    → (t : Templates Column) × (m ≡ returns (a, t))
unfolding without_cache
without_cache-returns (returns (b, t)) a h = (t, ap (λ x. returns (x, t)) (returns-eq h))
without_cache-returns (throws e) a h = cc

module _ {Column : Type 0} (lib : Columns Column) (type_of : Column → ColumnType)
    (lives : Column → Type 0) where
  -- The columns are of these types, their Map types stay alive, and they have `n` rows.
  abbrev pub Holds : List Sort → ℕ → List Column → Type 0
  Holds [] n [] = Unit
  Holds [] n (c ∷ cs) = ⊥
  Holds (s ∷ ss) n [] = ⊥
  Holds (s ∷ ss) n (c ∷ cs) = Typed type_of lives s.0 c × HasRows lib s.0 n c × Holds ss n cs

  pub Holds-AllLasting :
      (ss : List Sort) (n : ℕ) (cs : List Column) → Holds ss n cs → AllLasting lib type_of lives cs
  Holds-AllLasting [] n [] h = tt
  Holds-AllLasting (s ∷ ss) n (c ∷ cs) ((e, steady, live), rows, h) =
      ((subst Steady (sym e) steady, live), Holds-AllLasting ss n cs h)
  Holds-AllLasting [] n (c ∷ cs) h = absurd h
  Holds-AllLasting (s ∷ ss) n [] h = absurd h

  pub Holds-length :
      (ss : List Sort) (n : ℕ) (cs : List Column) → Holds ss n cs → length cs ≡ length ss
  Holds-length [] n [] h = refl
  Holds-length (s ∷ ss) n (c ∷ cs) (ty, rows, h) = ap suc (Holds-length ss n cs h)
  Holds-length [] n (c ∷ cs) h = absurd h
  Holds-length (s ∷ ss) n [] h = absurd h

module _ {Column : Type 0} (php : Engine) (show : ℤ → Bytes) (lib : Columns Column)
    (type_of : Column → ColumnType) where
  -- switch (col->Type()->GetCode())
  unfoldable pub read_cell : Column → ℕ → Outcome Zval
  read_cell c = column_value php show lib (type_of c) c

  -- The first `n` rows are read as before.
  abbrev Extends : ℕ → List Column → List Column → Type 0
  Extends n [] [] = Unit
  Extends n [] (c ∷ cs) = ⊥
  Extends n (c ∷ cs) [] = ⊥
  Extends n (c ∷ cs) (c' ∷ cs') =
      ((i : ℕ) → i < n → read_cell c' i ≡ read_cell c i) × Extends n cs cs'

  -- Row `n` of the columns is read as these values are stored.
  abbrev ReadsCells : ℕ → List Sort → List Column → List Zval → Type 0
  ReadsCells n [] [] [] = Unit
  ReadsCells n (s ∷ ss) (c ∷ cs) (x ∷ xs) =
      (read_cell c n ≡ returns (stored php s.0 s.1 x)) × ReadsCells n ss cs xs
  ReadsCells n _ _ _ = ⊥

  -- Row `n` and those after it are read as these rows are stored.
  abbrev pub ReadsRows : List Sort → List Bytes → ℕ → List Column → List (InsertRow Zval) → Type 0
  ReadsRows ss keys n cs [] = Unit
  ReadsRows ss keys n cs (not_array ∷ rows) = ⊥
  ReadsRows ss keys n cs (cells xs ∷ rows) =
      (convert_row read_cell cs keys n [] ≡ returns (stored_row php ss keys xs []))
      × ReadsRows ss keys (suc n) cs rows

  -- A row that is read cell by cell is read as a whole.
  convert_row-stored :
      (ss : List Sort) (cs : List Column) (keys : List Bytes) (xs : List Zval) (n : ℕ)
      (out : Row Zval)
      → ReadsCells n ss cs xs
      → convert_row read_cell cs keys n out ≡ returns (stored_row php ss keys xs out)
  unfolding convert_row stored_row
  convert_row-stored [] [] keys [] n out r = refl
  convert_row-stored (s ∷ ss) (c ∷ cs) [] (x ∷ xs) n out r = refl
  convert_row-stored (s ∷ ss) (c ∷ cs) (k ∷ keys) (x ∷ xs) n out (this, r) =
      rw (this, convert_row) (convert_row-stored ss cs keys xs n _ r)
  convert_row-stored [] [] keys (x ∷ xs) n out r = absurd r
  convert_row-stored [] (c ∷ cs) keys xs n out r = absurd r
  convert_row-stored (s ∷ ss) [] keys xs n out r = absurd r
  convert_row-stored (s ∷ ss) (c ∷ cs) keys [] n out r = absurd r

  Extends-reads :
      (ss : List Sort) (cs cs' : List Column) (xs : List Zval) (n i : ℕ)
      → i < n
      → Extends n cs cs'
      → ReadsCells i ss cs xs
      → ReadsCells i ss cs' xs
  Extends-reads [] [] [] [] n i l ex r = tt
  Extends-reads (s ∷ ss) (c ∷ cs) (c' ∷ cs') (x ∷ xs) n i l (kept, ex) (this, r) =
      (kept i l ∙ this, Extends-reads ss cs cs' xs n i l ex r)
  Extends-reads ss [] (c' ∷ cs') xs n i l ex r = absurd ex
  Extends-reads ss (c ∷ cs) [] xs n i l ex r = absurd ex
  Extends-reads [] [] [] (x ∷ xs) n i l ex r = absurd r
  Extends-reads (s ∷ ss) [] [] xs n i l ex r = absurd r
  Extends-reads [] (c ∷ cs) (c' ∷ cs') xs n i l ex r = absurd r
  Extends-reads (s ∷ ss) (c ∷ cs) (c' ∷ cs') [] n i l ex r = absurd r

  Extends-trans :
      (cs ds es : List Column) (n m : ℕ)
      → n < m
      → Extends n cs ds
      → Extends m ds es
      → Extends n cs es
  Extends-trans [] [] [] n m l a b = tt
  Extends-trans (c ∷ cs) (d ∷ ds) (e ∷ es) n m l (a, as') (b, bs) =
      ((λ i h. b i (omega arith) ∙ a i h), Extends-trans cs ds es n m l as' bs)
  Extends-trans [] (d ∷ ds) es n m l a b = absurd a
  Extends-trans (c ∷ cs) [] es n m l a b = absurd a
  Extends-trans [] [] (e ∷ es) n m l a b = absurd b
  Extends-trans (c ∷ cs) (d ∷ ds) [] n m l a b = absurd b

  Extends-refl : (cs : List Column) (n : ℕ) → Extends n cs cs
  Extends-refl [] n = tt
  Extends-refl (c ∷ cs) n = ((λ i l. refl), Extends-refl cs n)

module _ {Column : Type 0} (php : Engine) (show : ℤ → Bytes) (lib : Columns Column)
    (type_of : Column → ColumnType) {lives : Column → Type 0}
    (doc : Documented lib type_of lives) where
  append_cell-Plain :
      (s : Sort) (c c' : Column) (x : Zval) (n : ℕ)
      → Typed type_of lives s.0 c
      → HasRows lib s.0 n c
      → append_cell php lib type_of c x ≡ returns c'
      → Typed type_of lives s.0 c'
        × HasRows lib s.0 (suc n) c'
        × ((i : ℕ)
            → i < n
            → read_cell php show lib type_of c' i ≡ read_cell php show lib type_of c i)
        × (read_cell php show lib type_of c' n ≡ returns (stored php s.0 s.1 x))
  unfolding append_cell append_typed read_cell
  append_cell-Plain (ty, p) c c' x n e rows h =
      let (t, done) = without_cache-returns (append_value php lib (type_of c) c x []) c' h in
      let done' : append_value php lib ty c x [] ≡ returns (c', t) = rw e.0 at done in
      let same : Same (Agree lib type_of lives ty) (returns (c', t)) (returns (c', t)) =
        rw done' at (append_value-Agrees php lib type_of doc.types ty c x [] [] e tt tt) in
      (
        same.1,
        append_value-HasRows php lib doc.counts ty c x [] t c' n done' rows,
        λ i l.
            rw (e.0, same.1.0)
              (append_value-keeps php show lib doc.counts doc.keeps ty c x [] t c' n i done' rows
                l),
        rw same.1.0
            (column_value-append_value php show lib type_of doc ty p c x [] t c' n done' rows e tt),
      )

  fill_cells-Plain :
      (ss : List Sort) (cs cs' : List Column) (xs : List Zval) (n : ℕ)
      → Holds lib type_of lives ss n cs
      → fill_cells (append_cell php lib type_of) cs xs ≡ returns cs'
      → Holds lib type_of lives ss (suc n) cs'
        × Extends php show lib type_of n cs cs'
        × ReadsCells php show lib type_of n ss cs' xs
  unfolding fill_cells
  fill_cells-Plain [] [] cs' [] n h e =
      subst
        (λ l.
          Holds lib type_of lives [] (suc n) l
          × Extends php show lib type_of n [] l
          × ReadsCells php show lib type_of n [] l [])
        (returns-eq e) (tt, tt, tt)
  fill_cells-Plain [] [] cs' (x ∷ xs) n h e = cc
  fill_cells-Plain [] (c ∷ cs) cs' xs n h e = absurd h
  fill_cells-Plain (s ∷ ss) [] cs' xs n h e = absurd h
  fill_cells-Plain (s ∷ ss) (c ∷ cs) cs' [] n h e = cc
  fill_cells-Plain (s ∷ ss) (c ∷ cs) cs' (x ∷ xs) n (ty, rows, hs) e =
      let (d, this, e₁) = >>=-eq-returns (append_cell php lib type_of c x) _ e in
      let (ds, rest, e₂) = >>=-eq-returns (fill_cells (append_cell php lib type_of) cs xs) _ e₁ in
      let (ty', rows', kept, read) = append_cell-Plain s c d x n ty rows this in
      let (hs', kept', reads) = fill_cells-Plain ss cs ds xs n hs rest in
      subst
        (λ l.
          Holds lib type_of lives (s ∷ ss) (suc n) l
          × Extends php show lib type_of n (c ∷ cs) l
          × ReadsCells php show lib type_of n (s ∷ ss) l (x ∷ xs))
        (returns-eq e₂) ((ty', rows', hs'), (kept, kept'), (read, reads))

  pub fill_rows-Plain :
      (ss : List Sort) (keys : List Bytes) (rows : List (InsertRow Zval)) (cs cs' : List Column)
      (n : ℕ)
      → Holds lib type_of lives ss n cs
      → fill_rows (append_cell php lib type_of) cs rows ≡ returns cs'
      → Holds lib type_of lives ss (n + length rows) cs'
        × Extends php show lib type_of n cs cs'
        × ReadsRows php show lib type_of ss keys n cs' rows
  unfolding fill_rows fill_row
  fill_rows-Plain ss keys [] cs cs' n h e =
      subst
        (λ l. Holds lib type_of lives ss (n + 0) l × Extends php show lib type_of n cs l × Unit {0})
        (returns-eq e)
        (
          subst (λ k. Holds lib type_of lives ss k cs) (omega arith) h,
          Extends-refl php show lib type_of cs n,
          tt,
        )
  fill_rows-Plain ss keys (not_array ∷ rows) cs cs' n h e = cc
  fill_rows-Plain ss keys (cells xs ∷ rows) cs cs' n h e =
      let (ds, this, e₁) = >>=-eq-returns (fill_cells (append_cell php lib type_of) cs xs) _ e in
      let (h', kept, reads) = fill_cells-Plain ss cs ds xs n h this in
      let (h'', kept', rest) = fill_rows-Plain ss keys rows ds cs' (suc n) h' e₁ in
      (
        subst (λ k. Holds lib type_of lives ss k cs') (omega arith) h'',
        Extends-trans php show lib type_of cs ds cs' n (suc n) (omega arith) kept kept',
        (
          convert_row-stored php show lib type_of ss cs' keys xs n []
              (Extends-reads php show lib type_of ss ds cs' xs (suc n) n (omega arith) kept' reads),
          rest,
        ),
      )
