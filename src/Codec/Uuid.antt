-- ===== src/Codec/Uuid.antt =====
-- `ch_parse_uuid` and `ch_uuid_to_string` of ch_client.cpp. A UUID is the pair {high64, low64}.
pub mod RoundTrip
pub mod Skips
pub mod Bounds
mod Examples
use php_clickhouse.Base.{
  ℕ, zero, suc, ◌+◌, ◌-◌, ◌*◌, ◌/◌, ◌%◌, ◌^◌, Bytes, List, [], ◌∷◌, ◌++◌, Option, none, some, ltb,
  leb, ◌==◌, ◌&&◌, if◌then◌else◌,
}

abbrev pub Uuid : Type 0
Uuid = ℕ × ℕ

-- The value of a hexadecimal digit, in either case; `none` is the `continue` of the loop.
pub nibble : ℕ → Option ℕ
nibble c =
    if leb b'0' c && leb c b'9'
    then some (c - b'0')
    else if leb b'a' c && leb c b'f'
    then some (c - b'a' + 10)
    else if leb b'A' c && leb c b'F'
    then some (c - b'A' + 10)
    else none

-- `(x << 4) | nib` in uint64_t. The shift leaves four zero bits and nib < 16, so that | is +.
pub shift_in : ℕ → ℕ → ℕ
shift_in x nib = (x * 16 + nib) % 2 ^ 64

-- One round of the loop for a digit.
pub take_nibble : ℕ → ℕ × ℕ × ℕ → ℕ × ℕ × ℕ
take_nibble nib (hi, lo, nibbles) =
    if ltb nibbles 16
    then (shift_in hi nib, lo, nibbles + 1)
    else (hi, shift_in lo nib, nibbles + 1)

pub scan_char : Option ℕ → ℕ × ℕ × ℕ → ℕ × ℕ × ℕ
scan_char none s = s
scan_char (some nib) s = take_nibble nib s

-- for (i < len && nibbles < 32), over (hi, lo, nibbles)
pub scan_uuid : Bytes → ℕ × ℕ × ℕ → ℕ × ℕ × ℕ
scan_uuid [] s = s
scan_uuid (c ∷ cs) s =
    let rest = scan_uuid cs (scan_char (nibble c) s) in if ltb s.2 32 then rest else s

pub parse_uuid : Bytes → Uuid
parse_uuid str = let (hi, lo, nibbles) = scan_uuid str (0, 0, 0) in (hi, lo)

pub hex_digit : ℕ → ℕ
hex_digit d = if ltb d 10 then b'0' + d else b'a' + (d - 10)

-- The digits of `%x` beyond the width that is asked for; 16 are enough for 64 bits.
high_digits : ℕ → ℕ → Bytes
high_digits zero n = []
high_digits (suc fuel) n =
    let rest = high_digits fuel (n / 16) ++ hex_digit (n % 16) ∷ [] in if n == 0 then [] else rest

-- `%0wx` of the standard library: hexadecimal digits, padded with zeros to the width `w`.
pub format_hex : ℕ → ℕ → Bytes
format_hex zero n = high_digits 16 n
format_hex (suc w) n = format_hex w (n / 16) ++ hex_digit (n % 16) ∷ []

-- "%08x-%04x-%04x-%04x-%012llx". A cast to uint32_t is `% 2 ^ 32`.
pub uuid_to_string : Uuid → Bytes
uuid_to_string (hi, lo) =
    format_hex 8 (hi / 2 ^ 32 % 2 ^ 32)
    ++ (b'-'
        ∷ (format_hex 4 (hi / 2 ^ 16 % 2 ^ 16)
            ++ (b'-'
                ∷ (format_hex 4 (hi % 2 ^ 16)
                    ++ (b'-'
                        ∷ (format_hex 4 (lo / 2 ^ 48 % 2 ^ 32)
                            ++ (b'-' ∷ format_hex 12 (lo % 2 ^ 48))))))))
