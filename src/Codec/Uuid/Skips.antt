-- ===== src/Codec/Uuid/Skips.antt =====
-- What `parse_uuid` does not look at.
use php_clickhouse.Base.{
  ℕ, ◌≤◌, ◌≡◌, refl, Bytes, List, [], ◌∷◌, none, some, arith, ltb, if◌then◌else◌,
}
use php_clickhouse.Codec.Uuid.{nibble, take_nibble, scan_char, scan_uuid, parse_uuid}

-- The hexadecimal digits of a text, as their values.
unfoldable pub nibbles_of : Bytes → List ℕ
nibbles_of [] = []
nibbles_of (c ∷ cs) = elim (nibble c) [ none ↦ nibbles_of cs | some d ↦ d ∷ nibbles_of cs ]

-- The loop over the digits alone.
take_all : List ℕ → ℕ × ℕ × ℕ → ℕ × ℕ × ℕ
take_all [] s = s
take_all (d ∷ ds) s = let rest = take_all ds (take_nibble d s) in if ltb s.2 32 then rest else s

take_all_full : (ds : List ℕ) (s : ℕ × ℕ × ℕ) → 32 ≤ s.2 → take_all ds s ≡ s
unfolding take_all
take_all_full [] s h = refl
take_all_full (d ∷ ds) s h = ground arith

scan_uuid-take_all : (cs : Bytes) (s : ℕ × ℕ × ℕ) → scan_uuid cs s ≡ take_all (nibbles_of cs) s
unfolding scan_uuid take_all nibbles_of scan_char
scan_uuid-take_all [] s = refl
scan_uuid-take_all (c ∷ cs) s =
    ground (arith, scan_uuid-take_all cs (scan_char (nibble c) s), take_all_full (nibbles_of cs) s)

-- Texts whose hexadecimal digits have the same values are read as the same UUID: dashes and any
-- other bytes are skipped wherever they stand, and the case of a digit does not matter.
pub parse_uuid-nibbles_of :
    (a b : Bytes) → nibbles_of a ≡ nibbles_of b → parse_uuid a ≡ parse_uuid b
unfolding parse_uuid
parse_uuid-nibbles_of a b h = rw (scan_uuid-take_all a (0, 0, 0), scan_uuid-take_all b (0, 0, 0), h)
