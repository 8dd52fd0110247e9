-- ===== src/Codec/Decimal/Lossless.antt =====
-- The text of a Decimal holds its raw integer and its scale.
use php_clickhouse.Base.{
  ℕ, zero, suc, ◌+◌, ◌-◌, ◌*◌, ◌≤◌, ◌<◌, ◌≡◌, ◌≢◌, refl, ap, Bytes, [], ◌∷◌, ◌++◌, append-nil,
  Option, none, some, false, arith, ◌==◌, if◌then◌else◌, length, take, drop, replicate, All,
  All-append, All-take, All-replicate, length-append, length-drop, length-replicate,
  take-append-drop, IsDigit, digits_value, ◌∙◌,
}
use php_clickhouse.Base.Int.{ℤ, pos, negsuc, sub_ℕ}
use php_clickhouse.Codec.Decimal.{starts_negative, pad_digits, insert_point, decimal_to_string}

-- What is documented of `operator<<`: decimal digits, at least one, behind a `-` for a negative number.
pub record PrintsDecimal (show : ℤ → Bytes) : Type 0 where
  pub digits : ℕ → Bytes
  pub nonempty : (n : ℕ) → digits n ≢ []
  pub all_digits : (n : ℕ) → All IsDigit (digits n)
  pub value : (n : ℕ) → digits_value 0 (digits n) ≡ n
  pub show_pos : (n : ℕ) → show (pos n) ≡ digits n
  pub show_negsuc : (n : ℕ) → show (negsuc n) ≡ b'-' ∷ digits (suc n)

-- A reader of decimal numbers: the digits without their point, and the number of digits behind it.
read_digits : Bytes → ℕ → Option ℕ → ℕ × ℕ
read_digits [] n none = (n, 0)
read_digits [] n (some places) = (n, places)
read_digits (c ∷ s) n none =
    if c == b'.' then read_digits s n (some 0) else read_digits s (n * 10 + (c - b'0')) none
read_digits (c ∷ s) n (some places) = read_digits s (n * 10 + (c - b'0')) (some (places + 1))

pub read_decimal : Bytes → ℤ × ℕ
read_decimal [] = (pos 0, 0)
read_decimal (c ∷ s) =
    if c == b'-'
    then (sub_ℕ 0 (read_digits s 0 none).0, (read_digits s 0 none).1)
    else (pos (read_digits (c ∷ s) 0 none).0, (read_digits (c ∷ s) 0 none).1)

read_digits_whole :
    (s rest : Bytes) (n : ℕ)
    → All IsDigit s
    → read_digits (s ++ rest) n none ≡ read_digits rest (digits_value n s) none
unfolding read_digits
read_digits_whole [] rest n h = refl
read_digits_whole (c ∷ s) rest n h = ground (arith, read_digits_whole s rest (n * 10 + (c - b'0')))

read_digits_fraction :
    (s : Bytes) (n places : ℕ)
    → read_digits s n (some places) ≡ (digits_value n s, places + length s)
unfolding read_digits
read_digits_fraction [] n places = ground arith
read_digits_fraction (c ∷ s) n places =
    ground (arith, read_digits_fraction s (n * 10 + (c - b'0')) (places + 1))

digits_value-append :
    (s t : Bytes) (n : ℕ) → digits_value n (s ++ t) ≡ digits_value (digits_value n s) t
digits_value-append [] t n = refl
digits_value-append (c ∷ s) t n = digits_value-append s t (n * 10 + (c - b'0'))

digits_value-zeros : (k : ℕ) (s : Bytes) → digits_value 0 (replicate k b'0' ++ s) ≡ digits_value 0 s
digits_value-zeros zero s = refl
digits_value-zeros (suc k) s = digits_value-zeros k s

digits_value-pad : (scale : ℕ) (s : Bytes) → digits_value 0 (pad_digits scale s) ≡ digits_value 0 s
unfolding pad_digits
digits_value-pad scale s = ground (arith, digits_value-zeros (scale - length s + 1) s)

length-pad : (scale : ℕ) (s : Bytes) → scale < length (pad_digits scale s)
unfolding pad_digits
length-pad scale s = ground (
  arith,
  length-append (replicate (scale - length s + 1) b'0') s,
  length-replicate {A = ℕ} (scale - length s + 1) b'0',
)

pad-All : (scale : ℕ) (s : Bytes) → All IsDigit s → All IsDigit (pad_digits scale s)
unfolding pad_digits
pad-All scale s h = ground (
  arith,
  All-append IsDigit (replicate (scale - length s + 1) b'0') s
      (All-replicate IsDigit (scale - length s + 1) b'0' (omega arith)) h,
)

read-insert_point :
    (scale : ℕ) (s : Bytes)
    → All IsDigit s
    → scale ≤ length s
    → read_digits (insert_point scale s) 0 none ≡ (digits_value 0 s, scale)
unfolding insert_point read_digits
read-insert_point scale s h k =
    let point = length s - scale in
    rw
      (
        read_digits_whole (take point s) _ 0 (All-take IsDigit point s h),
        read_digits_fraction (drop point s) _ 0,
        ← digits_value-append (take point s) (drop point s) 0,
        take-append-drop point s,
        length-drop point s,
      )
      (ap (λ (n : ℕ). (digits_value 0 s, n)) (omega arith))

starts-insert_point :
    (scale : ℕ) (s : Bytes)
    → All IsDigit s
    → scale < length s
    → starts_negative (insert_point scale s) ≡ false
unfolding insert_point starts_negative
starts-insert_point scale [] h k = absurd (omega arith)
starts-insert_point scale (c ∷ s) h k =
    let e : suc (length s) - scale ≡ suc (length s - scale) = omega arith in rw e (ground arith)

starts-digits : (s : Bytes) → All IsDigit s → starts_negative s ≡ false
unfolding starts_negative
starts-digits [] h = refl
starts-digits (c ∷ s) h = ground arith

read_nonnegative :
    (s : Bytes) (n places : ℕ)
    → starts_negative s ≡ false
    → read_digits s 0 none ≡ (n, places)
    → read_decimal s ≡ (pos n, places)
unfolding read_decimal read_digits starts_negative
read_nonnegative [] n places h e = ground arith
read_nonnegative (c ∷ s) n places h e = rw (h, e)

read_negative :
    (s : Bytes) (n places : ℕ)
    → read_digits s 0 none ≡ (suc n, places)
    → read_decimal (b'-' ∷ s) ≡ (negsuc n, places)
unfolding read_decimal
read_negative s n places e = rw e (ground arith)

read_plain : (s : Bytes) → All IsDigit s → read_digits s 0 none ≡ (digits_value 0 s, 0)
unfolding read_digits
read_plain s h = rw (append-nil s) at (read_digits_whole s [] 0 h)

read_pointed :
    (scale : ℕ) (s : Bytes)
    → All IsDigit s
    → read_digits (insert_point scale (pad_digits scale s)) 0 none ≡ (digits_value 0 s, scale)
read_pointed scale s h =
    let bound = length-pad scale s in
    read-insert_point scale (pad_digits scale s) (pad-All scale s h) (omega arith)
    ∙ ap (λ n. (n, scale)) (digits_value-pad scale s)

module _ (show : ℤ → Bytes) (prints : PrintsDecimal show) where
  read_zero_scale : (raw : ℤ) → read_decimal (show raw) ≡ (raw, 0)
  read_zero_scale (pos n) =
      let ds = prints.digits n in
      let h = prints.all_digits n in
      rw (prints.show_pos n) (
        read_nonnegative ds n 0 (starts-digits ds h)
          (read_plain ds h ∙ ap (λ k. (k, 0)) (prints.value n)))
  read_zero_scale (negsuc n) =
      let ds = prints.digits (suc n) in
      rw (prints.show_negsuc n) (
        read_negative ds n 0
          (read_plain ds (prints.all_digits (suc n)) ∙ ap (λ k. (k, 0)) (prints.value (suc n))))

  read_scale :
      (raw : ℤ) (scale : ℕ)
      → read_decimal (decimal_to_string show raw (suc scale)) ≡ (raw, suc scale)
  unfolding decimal_to_string starts_negative
  read_scale (pos n) scale =
      let ds = prints.digits n in
      let h = prints.all_digits n in
      let out = insert_point (suc scale) (pad_digits (suc scale) ds) in
      let plain =
        starts-insert_point (suc scale) (pad_digits (suc scale) ds) (pad-All (suc scale) ds h)
          (length-pad (suc scale) ds) in
      let e = read_pointed (suc scale) ds h ∙ ap (λ k. (k, suc scale)) (prints.value n) in
      rw (prints.show_pos n, starts-digits ds h)
        (ground (arith, read_nonnegative out n (suc scale) plain e))
  read_scale (negsuc n) scale =
      let ds = prints.digits (suc n) in
      let h = prints.all_digits (suc n) in
      let out = insert_point (suc scale) (pad_digits (suc scale) ds) in
      let e = read_pointed (suc scale) ds h ∙ ap (λ k. (k, suc scale)) (prints.value (suc n)) in
      rw (prints.show_negsuc n) (ground (arith, read_negative out n (suc scale) e))

-- The text of a Decimal determines its raw integer and its scale: read as a decimal number it gives
-- both back, for every scale and either sign, if `show` prints integers in decimal.
pub read_decimal-decimal_to_string :
    (show : ℤ → Bytes)
    → PrintsDecimal show
    → (raw : ℤ) (scale : ℕ) → read_decimal (decimal_to_string show raw scale) ≡ (raw, scale)
unfolding decimal_to_string
read_decimal-decimal_to_string show prints raw zero = read_zero_scale show prints raw
read_decimal-decimal_to_string show prints raw (suc scale) = read_scale show prints raw scale
