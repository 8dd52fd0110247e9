-- ===== src/Insert/Statement.antt =====
-- The text of an INSERT statement.
use php_clickhouse.Base.{
  ◌≡◌, refl, Bytes, codes, true, false, List, [], ◌∷◌, ◌++◌, append_assoc, arith, All, ◌≢◌,
}
use php_clickhouse.Insert.{append_fields, build_insert_statement, c_string}

-- The names with a comma and a space between them.
pub joined : List Bytes → Bytes
joined [] = []
joined (n ∷ []) = n
joined (n ∷ m ∷ ns) = n ++ (codes ", " ++ joined (m ∷ ns))

append_fields-joined :
    (fields name : Bytes) (names : List Bytes)
    → append_fields (fields ++ name) false names ≡ fields ++ joined (name ∷ names)
unfolding append_fields joined
append_fields-joined fields name [] = refl
append_fields-joined fields name (m ∷ names) =
    rw (append_fields-joined ((fields ++ name) ++ codes ", ") m names) (simp append_assoc)

joins : (names : List Bytes) → append_fields [] true names ≡ joined names
unfolding append_fields joined
joins [] = refl
joins (n ∷ names) = append_fields-joined [] n names

c_string-whole : (s : Bytes) → All (λ c. c ≢ 0) s → c_string s ≡ s
unfolding c_string
c_string-whole [] h = refl
c_string-whole (c ∷ s) h = ground (arith, c_string-whole s h.1)

-- For a table name without zero bytes the statement is the table and the column names, in order, with
-- a comma between two names and none before the first or behind the last.
pub build_insert_statement-joined :
    (table : Bytes) (columns : List Bytes)
    → All (λ c. c ≢ 0) table
    → build_insert_statement table columns
      ≡ codes "INSERT INTO " ++ (table ++ (codes " (" ++ (joined columns ++ codes ") VALUES")))
unfolding build_insert_statement
build_insert_statement-joined table columns h = rw (c_string-whole table h, joins columns)
