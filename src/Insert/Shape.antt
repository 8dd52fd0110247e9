-- ===== src/Insert/Shape.antt =====
-- The rows of an insert and the columns of its block.
use php_clickhouse.Base.{
  ℕ, suc, ◌+◌, ◌≡◌, inl, inr, refl, ap, sym, subst, ◌∙◌, Bytes, List, [], ◌∷◌, map, arith, length,
  length-map, All, ◌==◌, ==_iff, Bool-cases,
}
use php_clickhouse.Errors.{Outcome, returns, Outcome-cases}
use php_clickhouse.Insert.{
  InsertRow, cells, not_array, Library, fill_cells, fill_row, fill_rows, fill_block, check_count,
  name_columns,
}

-- A row is a PHP array with `n` cells.
abbrev pub HasWidth : {Cell : Type 0} → ℕ → InsertRow Cell → Type 0
HasWidth n (cells xs) = length xs ≡ n
HasWidth n not_array = ⊥

module _ {Column Cell : Type 0} (append_value : Column → Cell → Outcome Column) (size : Column → ℕ)
    (grows : (c : Column) (x : Cell) (c' : Column)
      → append_value c x ≡ returns c'
      → size c' ≡ size c + 1) where
  abbrev OfSize : ℕ → List Column → Type 0
  OfSize n cols = All (λ c. size c ≡ n) cols

  -- What a filled row has done: its width was that of the columns, which all grew by one.
  abbrev Grown : ℕ → List Column → List Column → Type 0
  Grown n cols cols' = (length cols' ≡ length cols) × OfSize (n + 1) cols'

  fill_cells-Grown :
      (cols : List Column) (xs : List Cell) (cols' : List Column) (n : ℕ)
      → fill_cells append_value cols xs ≡ returns cols'
      → OfSize n cols
      → (length xs ≡ length cols) × Grown n cols cols'
  unfolding fill_cells
  fill_cells-Grown [] [] cols' n h s = ground arith
  fill_cells-Grown [] (x ∷ xs) cols' n h s = cc
  fill_cells-Grown (c ∷ cs) [] cols' n h s = cc
  fill_cells-Grown (c ∷ cs) (x ∷ xs) cols' n h s = elim (Outcome-cases (append_value c x)) [
    | inl (c', e) ↦ elim (Outcome-cases (fill_cells append_value cs xs)) [
      | inl (cs', es) ↦
          let rest = fill_cells-Grown cs xs cs' n es s.1 in
          let this : c' ∷ cs' ≡ cols' = ground arith in
          let one : size c' ≡ n + 1 = omega (arith, grows c x c' e) in
          subst (λ l. (suc (length xs) ≡ suc (length cs)) × Grown n (c ∷ cs) l) this
            (ap suc rest.0, (ap suc rest.1.0, (one, rest.1.1)))
      | inr (x', es) ↦ absurd (ground arith)
    ]
    | inr (x', e) ↦ absurd (ground arith)
  ]

  fill_row-Grown :
      (cols : List Column) (row : InsertRow Cell) (cols' : List Column) (n : ℕ)
      → fill_row append_value cols row ≡ returns cols'
      → OfSize n cols
      → HasWidth (length cols) row × Grown n cols cols'
  unfolding fill_row
  fill_row-Grown cols (cells xs) cols' n h s = fill_cells-Grown cols xs cols' n h s
  fill_row-Grown cols not_array cols' n h s = absurd (cc)

  fill_rows-Grown :
      (cols : List Column) (rows : List (InsertRow Cell)) (cols' : List Column) (n : ℕ)
      → fill_rows append_value cols rows ≡ returns cols'
      → OfSize n cols
      → All (HasWidth (length cols)) rows
        × (length cols' ≡ length cols)
        × OfSize (n + length rows) cols'
  unfolding fill_rows
  fill_rows-Grown cols [] cols' n h s =
      let e : cols ≡ cols' = ground arith in
      let sum : n ≡ n + 0 = omega arith in
      subst (λ l. Unit {0} × (length l ≡ length cols) × OfSize (n + 0) l) e
        (tt, refl, subst (λ k. OfSize k cols) sum s)
  fill_rows-Grown cols (row ∷ rows) cols' n h s =
      elim (Outcome-cases (fill_row append_value cols row)) [
        | inl (mid, e) ↦
            let first = fill_row-Grown cols row mid n e s in
            let rest = fill_rows-Grown mid rows cols' (n + 1) (ground arith) first.1.1 in
            let sum : n + 1 + length rows ≡ n + suc (length rows) = omega arith in
            (
              (first.0, subst (λ k. All (HasWidth k) rows) first.1.0 rest.0),
              rest.1 ∙ first.1.0,
              subst (λ k. OfSize k cols') sum rest.2,
            )
        | inr (x', e) ↦ absurd (ground arith)
      ]

  empty-OfSize :
      (lib : Library Column)
      → ((c : Column) → size (lib.clone_empty c) ≡ 0)
      → (cols : List Column) → OfSize 0 (map lib.clone_empty cols)
  empty-OfSize lib fresh [] = tt
  empty-OfSize lib fresh (c ∷ cols) = (fresh c, empty-OfSize lib fresh cols)

  -- A block that is filled is rectangular: it has a column for each name, and each column has one
  -- cell for each row; and every row was a PHP array with one cell for each name. This needs that a
  -- new column is empty and that appending a cell makes a column longer by one.
  pub fill_block-rectangular :
      (lib : Library Column) (names : List Bytes) (rows : List (InsertRow Cell))
      (sample cols : List Column)
      → ((c : Column) → size (lib.clone_empty c) ≡ 0)
      → fill_block append_value lib names rows sample ≡ returns cols
      → (length cols ≡ length names)
        × All (λ c. size c ≡ length rows) cols
        × All (HasWidth (length names)) rows
  unfolding fill_block check_count
  fill_block-rectangular lib names rows sample cols fresh h =
      elim (Bool-cases (length sample == length names)) [
        | inl same ↦
            let e : length sample ≡ length names = (==_iff _ _).0 same in
            let widths : length (map lib.clone_empty sample) ≡ length names =
              length-map sample lib.clone_empty ∙ e in
            let all =
              fill_rows-Grown (map lib.clone_empty sample) rows cols 0 (ground arith)
                (empty-OfSize lib fresh sample) in
            (
              all.1 ∙ widths,
              subst (λ k. OfSize k cols) {x = 0 + length rows} (omega arith) all.2,
              subst (λ k. All (HasWidth k) rows) widths all.0,
            )
        | inr other ↦ absurd (ground arith)
      ]

-- Rows of the right width are always filled in, if the columns are as many as the names and accept
-- every cell.
module _ {Column Cell : Type 0} (append_value : Column → Cell → Outcome Column)
    (accepts : (c : Column) (x : Cell) → (c' : Column) × (append_value c x ≡ returns c')) where
  fill_cells-total :
      (cols : List Column) (xs : List Cell)
      → length xs ≡ length cols
      → (cols' : List Column) × (fill_cells append_value cols xs ≡ returns cols')
        × (length cols' ≡ length cols)
  unfolding fill_cells
  fill_cells-total [] [] h = ([], refl, refl)
  fill_cells-total [] (x ∷ xs) h = absurd (omega arith)
  fill_cells-total (c ∷ cs) [] h = absurd (omega arith)
  fill_cells-total (c ∷ cs) (x ∷ xs) h =
      let (c', e) = accepts c x in
      let (cs', es, same) = fill_cells-total cs xs (omega arith) in
      (c' ∷ cs', rw (e, es), ap suc same)

  fill_rows-total :
      (n : ℕ) (cols : List Column) (rows : List (InsertRow Cell))
      → length cols ≡ n
      → All (HasWidth n) rows
      → (cols' : List Column) × (fill_rows append_value cols rows ≡ returns cols')
  unfolding fill_rows fill_row
  fill_rows-total n cols [] e h = (cols, refl)
  fill_rows-total n cols (not_array ∷ rows) e h = absurd h.0
  fill_rows-total n cols (cells xs ∷ rows) e h =
      let (mid, one, same) = fill_cells-total cols xs (h.0 ∙ sym e) in
      let (cols', all) = fill_rows-total n mid rows (same ∙ e) h.1 in (cols', rw one all)

  -- Rows that all have one cell for each name fill a block, if the server's sample block has a column
  -- for each name and the columns accept the cells.
  pub fill_block-total :
      (lib : Library Column) (names : List Bytes) (rows : List (InsertRow Cell))
      (sample : List Column)
      → length sample ≡ length names
      → All (HasWidth (length names)) rows
      → (cols : List Column) × (fill_block append_value lib names rows sample ≡ returns cols)
  unfolding fill_block check_count
  fill_block-total lib names rows sample e h =
      let (cols, all) =
        fill_rows-total (length names) (map lib.clone_empty sample) rows
          (length-map sample lib.clone_empty ∙ e) h in
      (cols, rw ((==_iff _ _).1 e) all)

-- What is filled has passed the check of the count.
pub fill_block-returns :
    {Column Cell : Type 0} (append_value : Column → Cell → Outcome Column) (lib : Library Column)
    (names : List Bytes) (rows : List (InsertRow Cell)) (sample cols : List Column)
    → fill_block append_value lib names rows sample ≡ returns cols
    → (length sample ≡ length names)
      × (fill_rows append_value (map lib.clone_empty sample) rows ≡ returns cols)
unfolding fill_block check_count
fill_block-returns append_value lib names rows sample cols h =
    elim (Bool-cases (length sample == length names)) [
      | inl same ↦ ((==_iff _ _).0 same, rw same at h)
      | inr other ↦ absurd (ground arith)
    ]

-- The names and the columns of a block, where they are as many.
pub name_columns-parts :
    {Column : Type 0} (names : List Bytes) (cols : List Column)
    → length cols ≡ length names
    → (map (λ c. c.0) (name_columns names cols) ≡ names)
      × (map (λ c. c.1) (name_columns names cols) ≡ cols)
unfolding name_columns
name_columns-parts [] [] h = (refl, refl)
name_columns-parts [] (c ∷ cols) h = absurd (omega arith)
name_columns-parts (n ∷ names) [] h = absurd (omega arith)
name_columns-parts (n ∷ names) (c ∷ cols) h =
    let (ns, cs) = name_columns-parts names cols (omega arith) in (ap (◌∷◌ n) ns, ap (◌∷◌ c) cs)
