-- ===== src/Column/Arrays.antt =====
-- The Array case of `ch_append_value` and `ch_column_value_to_zval`: reading an array that was written.
use php_clickhouse.Base.{ℕ, suc, ◌+◌, ◌<◌, ◌≡◌, refl, ap, sym, subst, ◌∙◌, Bytes, String, arith}
use php_clickhouse.Base.Int.{ℤ}
use php_clickhouse.Errors.{returns, >>=-eq-returns, returns-eq}
use php_clickhouse.Php.{Zval, Entries, nil, entry, Engine}
use php_clickhouse.Column.{ColumnType, array_of, Columns}
use php_clickhouse.Column.Append.{Templates, expect_array, append_each, append_array, append_value}
use php_clickhouse.Column.Read.{read_each, read_array, column_value}
use php_clickhouse.Column.Rows.{append_value-HasRows}
use php_clickhouse.Column.Earlier.{append_value-keeps}
use php_clickhouse.Column.Stored.{stored_each, in_array}
use php_clickhouse.Column.Sizes.{HasRows, size-HasRows}
use php_clickhouse.Column.Types.{Typed, element-Typed}
use php_clickhouse.Column.Cache.{Known}
use php_clickhouse.Column.Stores.{Documented, count, expect_array-eq, Stores, append_value-Known}

module _ {Column : Type 0} (php : Engine) (show : ℤ → Bytes) (lib : Columns Column)
    (type_of : Column → ColumnType) {lives : Column → Type 0}
    (doc : Documented lib type_of lives) where
  append_each-HasRows :
      (ty : ColumnType) (c : Column) (es : Entries) (tmpl tmpl' : Templates Column) (c' : Column)
      (n : ℕ)
      → append_each lib (append_value php lib ty) es c tmpl ≡ returns (c', tmpl')
      → HasRows lib ty n c
      → HasRows lib ty (count es + n) c'
  unfolding append_each count
  append_each-HasRows ty c nil tmpl tmpl' c' n h s =
      let none : n ≡ 0 + n = omega arith in
      subst (λ k. HasRows lib ty k c') none
        (subst (HasRows lib ty n) (ap (λ q. q.0) (returns-eq h)) s)
  append_each-HasRows ty c (entry k v es) tmpl tmpl' c' n h s =
      let ((m, t), done, h₁) = >>=-eq-returns (append_value php lib ty c v tmpl) _ h in
      let sum : count es + suc n ≡ suc (count es) + n = omega arith in
      subst (λ k. HasRows lib ty k c') sum
        (append_each-HasRows ty m es t tmpl' c' (suc n) h₁
          (append_value-HasRows php lib doc.counts ty c v tmpl t m n done s))

  append_each-keeps :
      (ty : ColumnType) (c : Column) (es : Entries) (tmpl tmpl' : Templates Column) (c' : Column)
      (n i : ℕ)
      → append_each lib (append_value php lib ty) es c tmpl ≡ returns (c', tmpl')
      → HasRows lib ty n c
      → i < n
      → column_value php show lib ty c' i ≡ column_value php show lib ty c i
  unfolding append_each
  append_each-keeps ty c nil tmpl tmpl' c' n i h s l =
      ap (λ q. column_value php show lib ty q.0 i) (sym (returns-eq h))
  append_each-keeps ty c (entry k v es) tmpl tmpl' c' n i h s l =
      let ((m, t), done, h₁) = >>=-eq-returns (append_value php lib ty c v tmpl) _ h in
      append_each-keeps ty m es t tmpl' c' (suc n) i h₁
        (append_value-HasRows php lib doc.counts ty c v tmpl t m n done s) (omega arith)
      ∙ append_value-keeps php show lib doc.counts doc.keeps ty c v tmpl t m n i done s l

  append_each-Stores :
      (ty : ColumnType) (f : Zval → Zval) (c : Column) (es : Entries)
      (tmpl tmpl' : Templates Column) (c' : Column) (n : ℕ)
      → Stores php show lib type_of lives ty f (append_value php lib ty)
      → append_each lib (append_value php lib ty) es c tmpl ≡ returns (c', tmpl')
      → HasRows lib ty n c
      → Typed type_of lives ty c
      → Known lib type_of lives tmpl
      → read_each (column_value php show lib ty c') n (count es) ≡ returns (stored_each php f n es)
  unfolding append_each read_each stored_each count Stores
  append_each-Stores ty f c nil tmpl tmpl' c' n g h s e known = refl
  append_each-Stores ty f c (entry k v es) tmpl tmpl' c' n g h s e known =
      let ((m, t), done, h₁) = >>=-eq-returns (append_value php lib ty c v tmpl) _ h in
      let rows = append_value-HasRows php lib doc.counts ty c v tmpl t m n done s in
      let (e', known') =
        append_value-Known php show lib type_of lives doc.types ty c v tmpl t m done e known in
      let first : column_value php show lib ty c' n ≡ returns (f v) =
        append_each-keeps ty m es t tmpl' c' (suc n) n h₁ rows (omega arith)
        ∙ g c v tmpl t m n done s e known in
      rw (first, append_each-Stores ty f m es t tmpl' c' (suc n) g h₁ rows e' known')

  pub array-Stores :
      (ty : ColumnType) (f : Zval → Zval)
      → Stores php show lib type_of lives ty f (append_value php lib ty)
      → Stores php show lib type_of lives
          (array_of ty)
          (in_array php (stored_each php f 0))
          (append_array lib (append_value php lib ty))
  unfolding Stores HasRows append_array column_value read_array in_array
  array-Stores ty f g c v tmpl tmpl' c' n h s type known =
      let what : String = "clickhouse: an Array column expects a PHP array" in
      let start = lib.clone_empty (lib.array_data c) in
      let (es, array, h₁) = >>=-eq-returns (expect_array what v) _ h in
      let ((e, t), each, h₂) =
        >>=-eq-returns (append_each lib (append_value php lib ty) es start tmpl) _ h₁ in
      let (c₁, done, h₃) = >>=-eq-returns (lib.append_as_column e c) _ h₂ in
      let same : c₁ ≡ c' = ap (λ q. q.0) (returns-eq h₃) in
      let cell : lib.column_at c₁ n ≡ returns e =
        subst (λ k. lib.column_at c₁ k ≡ returns e) s.0 (doc.keeps_cells.array_cell e c c₁ done) in
      let size : lib.size e ≡ count es =
        size-HasRows lib ty _ e (append_each-HasRows ty start es tmpl t e 0 each s.1)
        ∙ omega arith in
      let values =
        append_each-Stores ty f start es tmpl t e 0 g each s.1
          (element-Typed lib type_of doc.types ty c type) known in
      rw (← same, cell, size, values, expect_array-eq what v es array)
