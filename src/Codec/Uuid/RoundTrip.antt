-- ===== src/Codec/Uuid/RoundTrip.antt =====
-- `uuid_to_string` is read back by `parse_uuid`.
use php_clickhouse.Base.{
  ℕ, zero, suc, ◌+◌, ◌*◌, ◌/◌, ◌%◌, ◌^◌, ◌≤◌, ◌<◌, ◌≡◌, ap, Bytes, [], ◌∷◌, ◌++◌, append_assoc,
  append-nil, some, arith, length, length-append,
}
use php_clickhouse.Codec.Uuid.{
  nibble, shift_in, take_nibble, scan_char, scan_uuid, parse_uuid, hex_digit, high_digits,
  format_hex, uuid_to_string,
}

nibble-hex_digit : (d : ℕ) → d < 16 → nibble (hex_digit d) ≡ some d
unfolding nibble hex_digit
nibble-hex_digit d h = ground arith

scan_hex_digit :
    (d : ℕ) (rest : Bytes) (hi lo n : ℕ)
    → d < 16
    → n < 32
    → scan_uuid (hex_digit d ∷ rest) (hi, lo, n) ≡ scan_uuid rest (take_nibble d (hi, lo, n))
unfolding scan_uuid scan_char
scan_hex_digit d rest hi lo n h hn = rw (nibble-hex_digit d h, scan_char) (ground arith)

scan_dash :
    (rest : Bytes) (hi lo n : ℕ)
    → n < 32
    → scan_uuid (b'-' ∷ rest) (hi, lo, n) ≡ scan_uuid rest (hi, lo, n)
unfolding scan_uuid scan_char nibble
scan_dash rest hi lo n h = ground arith

-- 16 ^ w
abbrev pow16 : ℕ → ℕ
pow16 zero = 1
pow16 (suc w) = 16 * pow16 w

take_nibble_high :
    (d hi lo k : ℕ)
    → k < 16
    → hi * 16 + d < 2 ^ 64
    → take_nibble d (hi, lo, k) ≡ (hi * 16 + d, lo, k + 1)
unfolding take_nibble shift_in
take_nibble_high d hi lo k h fits = ground arith

take_nibble_low :
    (d hi lo k : ℕ)
    → 16 ≤ k
    → lo * 16 + d < 2 ^ 64
    → take_nibble d (hi, lo, k) ≡ (hi, lo * 16 + d, k + 1)
unfolding take_nibble shift_in
take_nibble_low d hi lo k h fits = ground arith

-- `w` digits in the high half.
scan_high :
    (w n : ℕ) (rest : Bytes) (hi lo k : ℕ)
    → n < pow16 w
    → k + w ≤ 16
    → hi * pow16 w + n < 2 ^ 64
    → scan_uuid (format_hex w n ++ rest) (hi, lo, k) ≡ scan_uuid rest (hi * pow16 w + n, lo, k + w)
unfolding format_hex high_digits
scan_high zero n rest hi lo k hn hk fits = ground arith
scan_high (suc w) n rest hi lo k hn hk fits =
    let d = n % 16 in
    let m = hi * pow16 w + n / 16 in
    rw
      (
        append_assoc,
        scan_high w (n / 16) (hex_digit d ∷ rest) hi lo k (omega arith) (omega arith) (omega arith),
        scan_hex_digit d rest m lo (k + w) (omega arith) (omega arith),
        take_nibble_high d m lo (k + w) (omega arith) (omega arith),
      )
      (ap (scan_uuid rest) (ground arith))

-- `w` digits in the low half.
scan_low :
    (w n : ℕ) (rest : Bytes) (hi lo k : ℕ)
    → n < pow16 w
    → 16 ≤ k
    → k + w ≤ 32
    → lo * pow16 w + n < 2 ^ 64
    → scan_uuid (format_hex w n ++ rest) (hi, lo, k) ≡ scan_uuid rest (hi, lo * pow16 w + n, k + w)
unfolding format_hex high_digits
scan_low zero n rest hi lo k hn hk hl fits = ground arith
scan_low (suc w) n rest hi lo k hn hk hl fits =
    let d = n % 16 in
    let m = lo * pow16 w + n / 16 in
    rw
      (
        append_assoc,
        scan_low w (n / 16) (hex_digit d ∷ rest) hi lo k (omega arith) (omega arith) (omega arith)
            (omega arith),
        scan_hex_digit d rest hi m (k + w) (omega arith) (omega arith),
        take_nibble_low d hi m (k + w) (omega arith) (omega arith),
      )
      (ap (scan_uuid rest) (ground arith))

scan_low_end :
    (w n hi lo k : ℕ)
    → n < pow16 w
    → 16 ≤ k
    → k + w ≤ 32
    → lo * pow16 w + n < 2 ^ 64
    → scan_uuid (format_hex w n) (hi, lo, k) ≡ (hi, lo * pow16 w + n, k + w)
unfolding scan_uuid
scan_low_end w n hi lo k hn hk hl fits =
    rw (append-nil (format_hex w n)) at (scan_low w n [] hi lo k hn hk hl fits)

scan_groups :
    (hi lo : ℕ)
    → hi < 2 ^ 64
    → lo < 2 ^ 64
    → scan_uuid (uuid_to_string (hi, lo)) (0, 0, 0) ≡ (hi, lo, 32)
unfolding uuid_to_string
scan_groups hi lo h l =
    let a = hi / 2 ^ 32 % 2 ^ 32 in
    let b = hi / 2 ^ 16 % 2 ^ 16 in
    let c = lo / 2 ^ 48 % 2 ^ 32 in
    let a' = 0 * pow16 8 + a in
    let hi' = (a' * pow16 4 + b) * pow16 4 + hi % 2 ^ 16 in
    rw
      (
        scan_high 8 a _ 0 0 0 (omega arith) (omega arith) (omega arith),
        scan_dash _ _ _ 8 (omega arith),
        scan_high 4 b _ a' 0 8 (omega arith) (omega arith) (omega arith),
        scan_dash _ _ _ 12 (omega arith),
        scan_high 4 (hi % 2 ^ 16) _ (a' * pow16 4 + b) 0 12 (omega arith) (omega arith)
            (omega arith),
        scan_dash _ _ _ 16 (omega arith),
        scan_low 4 c _ hi' 0 16 (omega arith) (omega arith) (omega arith) (omega arith),
        scan_dash _ _ _ 20 (omega arith),
        scan_low_end 12 (lo % 2 ^ 48) hi' (0 * pow16 4 + c) 20 (omega arith) (omega arith)
            (omega arith) (omega arith),
      )
      (ground arith)

-- A UUID of two 64-bit halves is read back from its canonical text.
pub parse_uuid-uuid_to_string :
    (hi lo : ℕ) → hi < 2 ^ 64 → lo < 2 ^ 64 → parse_uuid (uuid_to_string (hi, lo)) ≡ (hi, lo)
unfolding parse_uuid
parse_uuid-uuid_to_string hi lo h l = rw (scan_groups hi lo h l)

length-format_hex : (w n : ℕ) → n < pow16 w → length (format_hex w n) ≡ w
unfolding format_hex high_digits
length-format_hex zero n h = ground arith
length-format_hex (suc w) n h = omega (
  arith,
  length-append (format_hex w (n / 16)) (hex_digit (n % 16) ∷ []),
  length-format_hex w (n / 16),
)

-- The text of a UUID of two 64-bit halves has 36 bytes, so that with its final zero it fills the 37
-- bytes of `buf`.
pub length-uuid_to_string :
    (hi lo : ℕ) → hi < 2 ^ 64 → lo < 2 ^ 64 → length (uuid_to_string (hi, lo)) ≡ 36
unfolding uuid_to_string
length-uuid_to_string hi lo h l = simp length-append (
    omega (
      arith,
      length-format_hex 8 (hi / 2 ^ 32 % 2 ^ 32) (omega arith),
      length-format_hex 4 (hi / 2 ^ 16 % 2 ^ 16) (omega arith),
      length-format_hex 4 (hi % 2 ^ 16) (omega arith),
      length-format_hex 4 (lo / 2 ^ 48 % 2 ^ 32) (omega arith),
      length-format_hex 12 (lo % 2 ^ 48) (omega arith),
    ))
