-- ===== src/Codec/Uuid/Examples.antt =====
-- UUIDs that are written out.
use php_clickhouse.Base.{◌≡◌, refl, ℕ, codes, arith}
use php_clickhouse.Codec.Uuid.{
  parse_uuid, uuid_to_string, scan_uuid, scan_char, nibble, take_nibble, shift_in, format_hex,
  high_digits, hex_digit,
}
use php_clickhouse.Codec.Uuid.RoundTrip.{parse_uuid-uuid_to_string}

-- 01234567-89ab-cdef-fedc-ba9876543210
abbrev high_half : ℕ
high_half = 81985529216486895

abbrev low_half : ℕ
low_half = 18364758544493064720

printed : uuid_to_string (high_half, low_half) ≡ codes "01234567-89ab-cdef-fedc-ba9876543210"
unfolding uuid_to_string format_hex high_digits hex_digit
printed = refl

-- Digits in upper case and no dashes.
read : parse_uuid (codes "0123456789ABCDEFFEDCBA9876543210") ≡ (high_half, low_half)
unfolding parse_uuid scan_uuid scan_char nibble take_nibble shift_in
read = refl

parse_uuid-uuid_to_string_example :
    parse_uuid (uuid_to_string (high_half, low_half)) ≡ (high_half, low_half)
parse_uuid-uuid_to_string_example =
    parse_uuid-uuid_to_string high_half low_half (omega arith) (omega arith)
