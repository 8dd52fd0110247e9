-- ===== src/Column/Maps.antt =====
-- The Map case of `ch_append_value` and `ch_column_value_to_zval`: reading a map that was written.
use php_clickhouse.Base.{
  ℕ, suc, ◌+◌, ◌<◌, ◌≡◌, refl, ap, sym, subst, ◌∙◌, Bytes, String, some, arith,
}
use php_clickhouse.Base.Int.{ℤ}
use php_clickhouse.Errors.{returns, >>=-eq-returns, returns-eq}
use php_clickhouse.Php.{Zval, Entries, nil, entry, Engine, update_entry}
use php_clickhouse.Column.{ColumnType, map_of, Columns}
use php_clickhouse.Column.Append.{
  Templates, expect_array, key_value, append_pairs, templates_of, one_row, append_to_map,
  append_value,
}
use php_clickhouse.Column.Read.{key_of, read_pairs, read_map, column_value}
use php_clickhouse.Column.Rows.{append_value-HasRows}
use php_clickhouse.Column.Earlier.{append_value-keeps}
use php_clickhouse.Column.Stored.{in_array, stored_pairs}
use php_clickhouse.Column.Sizes.{HasRows, size-HasRows}
use php_clickhouse.Column.Types.{Typed, templates-Typed}
use php_clickhouse.Column.Cache.{Same, Known, Templated, templates_of-Templated}
use php_clickhouse.Column.Stores.{Documented, count, expect_array-eq, Stores, append_value-Known}

module _ {Column : Type 0} (php : Engine) (show : ℤ → Bytes) (lib : Columns Column)
    (type_of : Column → ColumnType) {lives : Column → Type 0}
    (doc : Documented lib type_of lives) where
  -- The key and value columns after the loop over the entries have a row for each entry more, and those that they had
  -- before are read as before.
  append_pairs-HasRows :
      (kt vt : ColumnType) (k v : Column) (es : Entries) (tmpl tmpl' : Templates Column)
      (k' v' : Column) (n : ℕ)
      → append_pairs lib (append_value php lib kt) (append_value php lib vt) es k v tmpl
        ≡ returns ((k', v'), tmpl')
      → HasRows lib kt n k
      → HasRows lib vt n v
      → HasRows lib kt (count es + n) k'
        × ((i : ℕ) → i < n → column_value php show lib kt k' i ≡ column_value php show lib kt k i)
        × ((i : ℕ) → i < n → column_value php show lib vt v' i ≡ column_value php show lib vt v i)
  unfolding append_pairs count
  append_pairs-HasRows kt vt k v nil tmpl tmpl' k' v' n h a b =
      let same_k : k ≡ k' = ap (λ q. q.0.0) (returns-eq h) in
      let same_v : v ≡ v' = ap (λ q. q.0.1) (returns-eq h) in
      let none : n ≡ 0 + n = omega arith in
      (
        subst (λ m. HasRows lib kt m k') none (subst (HasRows lib kt n) same_k a),
        λ i l. ap (λ c. column_value php show lib kt c i) (sym same_k),
        λ i l. ap (λ c. column_value php show lib vt c i) (sym same_v),
      )
  append_pairs-HasRows kt vt k v (entry key x es) tmpl tmpl' k' v' n h a b =
      let ((k₁, t₁), in_k, h₁) =
        >>=-eq-returns (append_value php lib kt k (key_value key) tmpl) _ h in
      let ((v₁, t₂), in_v, h₂) = >>=-eq-returns (append_value php lib vt v x t₁) _ h₁ in
      let a₁ = append_value-HasRows php lib doc.counts kt k (key_value key) tmpl t₁ k₁ n in_k a in
      let b₁ = append_value-HasRows php lib doc.counts vt v x t₁ t₂ v₁ n in_v b in
      let (rows, kept_k, kept_v) =
        append_pairs-HasRows kt vt k₁ v₁ es t₂ tmpl' k' v' (suc n) h₂ a₁ b₁ in
      let sum : count es + suc n ≡ suc (count es) + n = omega arith in
      (
        subst (λ m. HasRows lib kt m k') sum rows,
        λ i l.
            kept_k i (omega arith)
            ∙ append_value-keeps php show lib doc.counts doc.keeps kt k (key_value key) tmpl t₁ k₁ n
                i in_k a l,
        λ i l.
            kept_v i (omega arith)
            ∙ append_value-keeps php show lib doc.counts doc.keeps vt v x t₁ t₂ v₁ n i in_v b l,
      )

  -- The entries are read back in order.
  append_pairs-Stores :
      (kt vt : ColumnType) (f g : Zval → Zval) (k v : Column) (es out : Entries)
      (tmpl tmpl' : Templates Column) (k' v' : Column) (n : ℕ)
      → Stores php show lib type_of lives kt f (append_value php lib kt)
      → Stores php show lib type_of lives vt g (append_value php lib vt)
      → append_pairs lib (append_value php lib kt) (append_value php lib vt) es k v tmpl
        ≡ returns ((k', v'), tmpl')
      → HasRows lib kt n k
      → HasRows lib vt n v
      → Typed type_of lives kt k
      → Typed type_of lives vt v
      → Known lib type_of lives tmpl
      → read_pairs php
          (column_value php show lib kt k')
          (column_value php show lib vt v')
          n
          (count es)
          out
        ≡ returns (stored_pairs php f g es out)
  unfolding append_pairs read_pairs stored_pairs count Stores
  append_pairs-Stores kt vt f g k v nil out tmpl tmpl' k' v' n sk sv h a b ek ev known = refl
  append_pairs-Stores kt vt f g k v (entry key x es) out tmpl tmpl' k' v' n sk sv h a b ek ev
        known =
      let ((k₁, t₁), in_k, h₁) =
        >>=-eq-returns (append_value php lib kt k (key_value key) tmpl) _ h in
      let ((v₁, t₂), in_v, h₂) = >>=-eq-returns (append_value php lib vt v x t₁) _ h₁ in
      let a₁ = append_value-HasRows php lib doc.counts kt k (key_value key) tmpl t₁ k₁ n in_k a in
      let b₁ = append_value-HasRows php lib doc.counts vt v x t₁ t₂ v₁ n in_v b in
      let (ek₁, known₁) =
        append_value-Known php show lib type_of lives doc.types kt k _ tmpl t₁ k₁ in_k ek known in
      let (ev₁, known₂) =
        append_value-Known php show lib type_of lives doc.types vt v x t₁ t₂ v₁ in_v ev known₁ in
      let (_, kept_k, kept_v) =
        append_pairs-HasRows kt vt k₁ v₁ es t₂ tmpl' k' v' (suc n) h₂ a₁ b₁ in
      let this_k : column_value php show lib kt k' n ≡ returns (f (key_value key)) =
        kept_k n (omega arith) ∙ sk k (key_value key) tmpl t₁ k₁ n in_k a ek known in
      let this_v : column_value php show lib vt v' n ≡ returns (g x) =
        kept_v n (omega arith) ∙ sv v x t₁ t₂ v₁ n in_v b ev known₁ in
      let out' = update_entry (key_of php (f (key_value key))) (g x) out in
      rw (this_k, this_v)
        (append_pairs-Stores kt vt f g k₁ v₁ es out' t₂ tmpl' k' v' (suc n) sk sv h₂ a₁ b₁ ek₁ ev₁
          known₂)

  -- The row that is made of the entries is read as those entries.
  one_row-entries :
      (k v row c c' : Column)
      → one_row lib k v ≡ returns row
      → lib.append_map row c ≡ returns c'
      → lib.entries_at c' (lib.size c) ≡ returns (lib.tuple_column k v)
  unfolding one_row
  one_row-entries k v row c c' made done =
      doc.makes.map_cell (lib.tuple_column k v) row c c' made done

  -- The templates are what the library creates, and the cache holds what it did.
  templates_of-creates :
      (kt vt : ColumnType) (c k v : Column) (tmpl t : Templates Column)
      → templates_of lib kt vt (lib.type_id c) tmpl ≡ returns ((k, v), t)
      → Typed type_of lives (map_of kt vt) c
      → Known lib type_of lives tmpl
      → (lib.create kt ≡ some k) × (lib.create vt ≡ some v) × Known lib type_of lives t
  templates_of-creates kt vt c k v tmpl t h e known =
      let same : Same (Templated lib type_of lives kt vt) (returns ((k, v), t))
          (returns ((k, v), t)) =
        rw h at (templates_of-Templated lib type_of doc.types c kt vt tmpl tmpl e known known) in
      (same.1, same.2, same.3)

  pub map-Stores :
      (kt vt : ColumnType) (f g : Zval → Zval)
      → Stores php show lib type_of lives kt f (append_value php lib kt)
      → Stores php show lib type_of lives vt g (append_value php lib vt)
      → Stores php show lib type_of lives
          (map_of kt vt)
          (in_array php (λ es. stored_pairs php f g es nil))
          (append_to_map lib kt vt (append_value php lib kt) (append_value php lib vt))
  unfolding Stores HasRows append_to_map column_value read_map in_array
  map-Stores kt vt f g sk sv c v tmpl tmpl' c' n h s type known =
      let what : String = "clickhouse: a Map column expects a PHP array" in
      let (es, array, h₁) = >>=-eq-returns (expect_array what v) _ h in
      let (((k₀, v₀), t₀), found, h₂) =
        >>=-eq-returns (templates_of lib kt vt (lib.type_id c) tmpl) _ h₁ in
      let (((k, x), t), pairs, h₃) =
        >>=-eq-returns
          (append_pairs lib (append_value php lib kt) (append_value php lib vt) es
            (lib.clone_empty k₀) (lib.clone_empty v₀) t₀)
          _ h₂ in
      let (row, made, h₄) = >>=-eq-returns (one_row lib k x) _ h₃ in
      let (c₁, done, h₅) = >>=-eq-returns (lib.append_map row c) _ h₄ in
      let same : c₁ ≡ c' = ap (λ q. q.0) (returns-eq h₅) in
      let (made_k, made_v, known₀) = templates_of-creates kt vt c k₀ v₀ tmpl t₀ found type known in
      let typed = templates-Typed lib type_of doc.types kt vt c k₀ v₀ type made_k made_v in
      let a = doc.makes.create_empty kt k₀ made_k in
      let b = doc.makes.create_empty vt v₀ made_v in
      let (rows, _, _) =
        append_pairs-HasRows kt vt (lib.clone_empty k₀) (lib.clone_empty v₀) es t₀ t k x 0 pairs a
          b in
      let cell : lib.entries_at c₁ n ≡ returns (lib.tuple_column k x) =
        subst (λ i. lib.entries_at c₁ i ≡ returns (lib.tuple_column k x)) s
          (one_row-entries k x row c c₁ made done) in
      let size : lib.size (lib.tuple_column k x) ≡ count es =
        doc.makes.tuple_size k x ∙ size-HasRows lib kt _ k rows ∙ omega arith in
      let values =
        append_pairs-Stores kt vt f g (lib.clone_empty k₀) (lib.clone_empty v₀) es nil t₀ t k x 0 sk
          sv pairs a b typed.0 typed.1 known₀ in
      rw (
        ← same,
        cell,
        size,
        doc.makes.tuple_first k x,
        doc.makes.tuple_second k x,
        values,
        expect_array-eq what v es array,
      )
