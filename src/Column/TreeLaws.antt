-- ===== src/Column/TreeLaws.antt =====
-- The library of trees does what is documented of columns.
use php_clickhouse.Base.{ℕ, ◌<◌, ◌≡◌, refl, ap, sym, ◌∙◌, some, arith}
use php_clickhouse.Errors.{returns, returns-eq}
use php_clickhouse.Column.{
  Code, ColumnType, scalar, nullable, array_of, tuple_of, map_of, low_cardinality, Input,
}
use php_clickhouse.Column.Sizes.{CountsRows, HasRows}
use php_clickhouse.Column.Stores.{MakesMaps, Documented}
use php_clickhouse.Column.Earlier.{KeepsRows}
use php_clickhouse.Column.Stored.{
  PlainCode, of_int, of_uint, of_float64, of_boolean, of_string, of_datetime64, of_uuid, same_cell,
}
use php_clickhouse.Column.Scalars.{KeepsCells}
use php_clickhouse.Column.Trees.{
  whole_numbers, Tree, blank, node, type_of, create_of, size_of, cells_of, flags_of, rows_of,
  emptied, put_at, cell_in, cell_out, trees,
}
use php_clickhouse.Column.TreeTypes.{Stays, trees-KeepsTypes}

pub trees-CountsRows : CountsRows trees
trees-CountsRows = record {
  append_grows = λ code d c c' h. ap size_of (sym (returns-eq h));
  flag_grows = λ b c. refl;
  flag_nested = λ b c. refl;
  size_set_nested = λ c m. refl;
  nested_set_nested = λ c m. refl;
  array_grows = λ e c c' h. ap size_of (sym (returns-eq h));
  array_template = λ e c c' h. refl;
  map_grows = λ r c c' h. ap size_of (sym (returns-eq h));
  member_set_member = λ c m i j. ground arith;
  size_set_first = λ c m. refl;
  size_set_later = λ c m i. ground arith;
}

put_at-ne : {A : Type 0} (i j : ℕ) (a : A) (f : ℕ → A) → j < i → put_at i a f j ≡ f j
put_at-ne i j a f l = ground arith

put_at-eq : {A : Type 0} (i : ℕ) (a : A) (f : ℕ → A) → put_at i a f i ≡ a
put_at-eq i a f = ground arith

pub trees-KeepsRows : KeepsRows trees
trees-KeepsRows = record {
  append_keeps = λ code d c c' i h l.
      ap (λ t. cell_out code (cells_of t i)) (sym (returns-eq h))
      ∙ ap (cell_out code) (put_at-ne (size_of c) i (cell_in code d) (cells_of c) l);
  flag_keeps = λ b c i l. put_at-ne (size_of c) i b (flags_of c) l;
  nested_keeps = λ c m i. refl;
  array_keeps = λ e c c' i h l.
      ap (λ t. returns (rows_of t i)) (sym (returns-eq h))
      ∙ ap returns (put_at-ne (size_of c) i e (rows_of c) l);
  map_keeps = λ r c c' i h l.
      ap (λ t. returns (rows_of t i)) (sym (returns-eq h))
      ∙ ap returns (put_at-ne (size_of c) i (rows_of r 0) (rows_of c) l);
}

cell_out-cell_in :
    (code : Code) (p : PlainCode code) (d : Input code)
    → cell_out code (cell_in code d) ≡ returns (same_cell p d)
unfolding same_cell
cell_out-cell_in _ (of_int w) d = refl
cell_out-cell_in _ (of_uint w) d = refl
cell_out-cell_in _ of_float64 d = refl
cell_out-cell_in _ of_boolean d = refl
cell_out-cell_in _ of_string d = refl
cell_out-cell_in _ (of_datetime64 p) d = refl
cell_out-cell_in _ of_uuid (hi, lo) = refl

pub trees-KeepsCells : KeepsCells trees
trees-KeepsCells = record {
  append_cell = λ code p d c c' fits h.
      ap (λ t. cell_out code (cells_of t (size_of c))) (sym (returns-eq h))
      ∙ ap (cell_out code) (put_at-eq (size_of c) (cell_in code d) (cells_of c))
      ∙ cell_out-cell_in code p d;
  flag_cell = λ b c. put_at-eq (size_of c) b (flags_of c);
  array_cell = λ e c c' h.
      ap (λ t. returns (rows_of t (size_of c))) (sym (returns-eq h))
      ∙ ap returns (put_at-eq (size_of c) e (rows_of c));
}

emptied-size : (c : Tree) → size_of (emptied c) ≡ 0
emptied-size (blank k) = refl
emptied-size (node s n cells flags inner rows) = refl

trees-create_empty :
    (ty : ColumnType) (c : Tree) → create_of ty ≡ some c → HasRows trees ty 0 (emptied c)
unfolding HasRows
trees-create_empty (scalar code) t h = emptied-size t
trees-create_empty (nullable ty) t h = cc
trees-create_empty (array_of ty) t h = cc
trees-create_empty (tuple_of tys) t h = cc
trees-create_empty (map_of kt vt) t h = emptied-size t
trees-create_empty low_cardinality t h = emptied-size t

-- The one row of an array that was made of a column is that column.
first_row :
    (e row : Tree)
    → trees.append_as_column e (blank whole_numbers) ≡ returns row
    → rows_of row 0 ≡ e
first_row e row h = ap (λ t. rows_of t 0) (sym (returns-eq h))

pub trees-MakesMaps : MakesMaps trees
trees-MakesMaps = record {
  create_empty = trees-create_empty;
  tuple_first = λ k v. refl;
  tuple_second = λ k v. refl;
  tuple_size = λ k v. refl;
  map_cell = λ e row c c' made done.
      ap (λ t. returns (rows_of t (size_of c))) (sym (returns-eq done))
      ∙ ap returns (put_at-eq (size_of c) (rows_of row 0) (rows_of c) ∙ first_row e row made);
}

pub trees-Documented : Documented trees type_of Stays
trees-Documented = record {
  counts = trees-CountsRows;
  keeps = trees-KeepsRows;
  keeps_cells = trees-KeepsCells;
  types = trees-KeepsTypes;
  makes = trees-MakesMaps;
}
