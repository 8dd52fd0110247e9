-- ===== src/Client/Examples.antt =====
-- An insert that the server refuses when the session is opened.
use php_clickhouse.Base.{ℕ, ◌≡◌, ◌⊎◌, codes, false, List, [], ◌∷◌, ◌++◌, none, some}
use php_clickhouse.Base.Int.{pos}
use php_clickhouse.Errors.{Exception, server_exception, Outcome, returns, throws}
use php_clickhouse.Connection.{Connection, fresh, before_release}
use php_clickhouse.Insert.{InsertRow, cells, Call, end_insert, Library}
use php_clickhouse.Client.{insert}
use php_clickhouse.Client.Handover.{insert-gives_back}

abbrev append_number : List ℕ → ℕ → Outcome (List ℕ)
append_number c x = returns (c ++ x ∷ [])

abbrev no_table : Exception
no_table = record { kind = server_exception; what = codes "unknown table"; code = pos 60 }

abbrev refusing : Library (List ℕ)
refusing = record {
  begins = λ calls. throws no_table;
  answers = λ calls. throws no_table;
  leaves = λ calls. none;
  clone_empty = λ c. [];
}

abbrev one_row : List (InsertRow ℕ)
one_row = cells (7 ∷ []) ∷ []

insert-gives_back_example :
    (c : Connection) × ((insert append_number refusing
        (codes "t")
        (codes "n" ∷ [])
        one_row
        (some fresh)
        none).0
      ≡ c ∷ [])
    × ((before_release c ≡ false)
        ⊎ ((cs : List (Call (List ℕ))) × ((insert append_number refusing
                (codes "t")
                (codes "n" ∷ [])
                one_row
                (some fresh)
                none).1
              ≡ cs ++ end_insert ∷ [])
            × (refusing.answers (cs ++ end_insert ∷ []) ≡ returns tt)))
insert-gives_back_example =
    insert-gives_back append_number refusing (codes "t") (codes "n" ∷ []) one_row fresh none
