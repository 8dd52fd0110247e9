-- ===== src/Codec/Uuid/Bounds.antt =====
-- The halves of a UUID that is read fit uint64_t.
use php_clickhouse.Base.{ℕ, ◌^◌, ◌<◌, Bytes, [], ◌∷◌, Option, none, some, arith}
use php_clickhouse.Codec.Uuid.{parse_uuid, scan_uuid, scan_char, take_nibble, shift_in, nibble}

Halves : ℕ × ℕ × ℕ → Type 0
Halves s = (s.0 < 2 ^ 64) × (s.1 < 2 ^ 64)

scan_char-Halves : (o : Option ℕ) (s : ℕ × ℕ × ℕ) → Halves s → Halves (scan_char o s)
unfolding Halves scan_char take_nibble shift_in
scan_char-Halves none s h = h
scan_char-Halves (some d) (hi, lo, n) h = ground arith

scan_uuid-Halves : (cs : Bytes) (s : ℕ × ℕ × ℕ) → Halves s → Halves (scan_uuid cs s)
unfolding scan_uuid
scan_uuid-Halves [] s h = h
scan_uuid-Halves (c ∷ cs) s h =
    let rest = scan_uuid-Halves cs (scan_char (nibble c) s) (scan_char-Halves (nibble c) s h) in
    ground arith

pub parse_uuid-lt : (s : Bytes) → ((parse_uuid s).0 < 2 ^ 64) × ((parse_uuid s).1 < 2 ^ 64)
unfolding parse_uuid Halves
parse_uuid-lt s = scan_uuid-Halves s (0, 0, 0) (omega arith, omega arith)
