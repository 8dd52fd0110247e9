-- ===== src/Client/Handover.antt =====
-- What `Client::insert` does with the connection that it acquired.
use php_clickhouse.Base.{
  ◌≡◌, ◌⊎◌, inl, inr, refl, ap, Bytes, false, not, List, [], ◌∷◌, ◌++◌, Option, none, some, ℕ, ◌+◌,
  length, arith,
}
use php_clickhouse.Errors.{Outcome, returns, PhpException}
use php_clickhouse.Connection.Moves.{one_more}
use php_clickhouse.Connection.{Connection, before_release}
use php_clickhouse.Insert.{
  InsertRow, Library, Call, Wire, end_insert, send_block, build_insert_statement,
}
use php_clickhouse.Insert.Session.{send_block-Settled}
use php_clickhouse.Client.{client_insert, insert}

-- An insert gives the connection that it acquired back exactly once, however it ends; and the pool
-- is told to destroy it, or the last call of the library closed an insert session.
pub insert-gives_back :
    {Column Cell : Type 0} (append_value : Column → Cell → Outcome Column) (lib : Library Column)
    (table : Bytes) (columns : List Bytes) (rows : List (InsertRow Cell)) (conn : Connection)
    (p : Option PhpException)
    → (c : Connection) × ((insert append_value lib table columns rows (some conn) p).0 ≡ c ∷ [])
      × ((before_release c ≡ false)
          ⊎ ((cs : List (Call Column)) × ((insert append_value lib table columns rows
                  (some conn)
                  p).1
                ≡ cs ++ end_insert ∷ [])
              × (lib.answers (cs ++ end_insert ∷ []) ≡ returns tt)))
unfolding insert client_insert before_release
insert-gives_back {Column} append_value lib table columns rows conn p =
    let statement = build_insert_statement table columns in
    let w : Wire Column = record { calls = []; broken = conn.broken; pending = p } in
    let c : Connection = record conn {
      broken = (send_block append_value lib statement columns rows w).0.broken;
    } in
    (
      c,
      refl,
      elim (send_block-Settled append_value lib statement columns rows w) [
        | inl broken ↦ inl (ap not broken)
        | inr closed ↦ inr closed
      ],
    )

-- An insert gives back as many connections as it acquired.
pub length-insert :
    {Column Cell : Type 0} (append_value : Column → Cell → Outcome Column) (lib : Library Column)
    (table : Bytes) (columns : List Bytes) (rows : List (InsertRow Cell))
    (answer : Option Connection) (p : Option PhpException) (n : ℕ)
    → length (insert append_value lib table columns rows answer p).0 + n ≡ one_more answer n
unfolding insert
length-insert append_value lib table columns rows none p n = omega arith
length-insert append_value lib table columns rows (some conn) p n = omega arith
