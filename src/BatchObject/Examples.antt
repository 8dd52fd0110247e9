-- ===== src/BatchObject/Examples.antt =====
-- A Batch object that was made with `new`.
use php_clickhouse.Base.{ℕ, ◌≡◌, refl, [], ◌∷◌, none, some}
use php_clickhouse.Insert.{cells}
use php_clickhouse.BatchObject.{append, not_constructed}

refused : append {Cell = ℕ} (cells (7 ∷ [])) none ≡ (none, some not_constructed)
unfolding append
refused = refl
