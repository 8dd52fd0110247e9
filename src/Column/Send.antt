-- ===== src/Column/Send.antt =====
-- `ch_send_block` with its cache of Map templates.
use php_clickhouse.Base.{◌≡◌, refl, ap, Bool, Bytes, List, [], ◌∷◌, ◌++◌, map}
use php_clickhouse.Errors.{Outcome, returns, throws, ◌>>=◌}
use php_clickhouse.Php.{Zval, Engine}
use php_clickhouse.Insert.{
  InsertRow, Library, Wire, Call, begin_insert, called, send_filled, send_block, fill_block,
}
use php_clickhouse.Column.{ColumnType, Columns}
use php_clickhouse.Column.Types.{KeepsTypes}
use php_clickhouse.Column.Block.{
  AllLasting, without_cache, append_cell, fill_block_cached, fill_block_cached-fill_block,
}

module _ {Column : Type 0} (php : Engine) (lib : Columns Column) (type_of : Column → ColumnType)
    (wire : Library Column) where
  -- The sample block that the server answers, filled with the rows.
  unfoldable pub filled_cached :
      Bytes → List Bytes → List (InsertRow Zval) → List (Call Column) → Outcome (List Column)
  filled_cached statement names rows cs = do
    sample ← wire.begins (cs ++ begin_insert statement ∷ [])
    without_cache (fill_block_cached php lib type_of names rows sample)

  unfoldable pub send_block_cached :
      Bytes → List Bytes → List (InsertRow Zval) → Wire Column → Wire Column × Bool
  send_block_cached statement names rows w =
      send_filled wire names (filled_cached statement names rows w.calls)
        (called wire (begin_insert statement) w)

  module _ {lives : Column → Type 0} (laws : KeepsTypes lib type_of lives)
      (same : wire.clone_empty ≡ lib.clone_empty) where
    filled_cached-bind :
        (names : List Bytes) (rows : List (InsertRow Zval)) (sample : Outcome (List Column))
        → ((s : List Column)
            → sample ≡ returns s
            → AllLasting lib type_of lives (map wire.clone_empty s))
        → (sample >>= λ s. without_cache (fill_block_cached php lib type_of names rows s))
          ≡ (sample >>= λ s. fill_block (append_cell php lib type_of) wire names rows s)
    filled_cached-bind names rows (returns s) lasting =
        fill_block_cached-fill_block php lib type_of laws wire names rows s same (lasting s refl)
    filled_cached-bind names rows (throws e) lasting = refl

    -- An insert with the cache of Map templates, which one call shares among all its cells, makes the same calls and
    -- ends the same as one without a cache, its errors included. This holds where no Map of the sample's columns is
    -- inside an Array or a Map and their Map types stay alive until the insert ends, where of two living types with one
    -- address it is the same type, and where what else is documented of the types of columns holds.
    pub send_block_cached-send_block :
        (statement : Bytes) (names : List Bytes) (rows : List (InsertRow Zval)) (w : Wire Column)
        → ((sample : List Column)
            → wire.begins (w.calls ++ begin_insert statement ∷ []) ≡ returns sample
            → AllLasting lib type_of lives (map wire.clone_empty sample))
        → send_block_cached statement names rows w
          ≡ send_block (append_cell php lib type_of) wire statement names rows w
    unfolding send_block_cached filled_cached send_block
    send_block_cached-send_block statement names rows w lasting =
        ap (λ o. send_filled wire names o (called wire (begin_insert statement) w))
          (filled_cached-bind names rows (wire.begins (w.calls ++ begin_insert statement ∷ []))
            lasting)
