-- ===== src/Codec/Decimal/Examples.antt =====
-- Decimals that are written out.
use php_clickhouse.Base.{
  ◌≡◌, refl, suc, Bytes, codes, ◌∷◌, format_decimal, format_decimal-value, format_decimal-All,
  format_decimal-ne-nil,
}
use php_clickhouse.Base.Int.{ℤ, pos, negsuc}
use php_clickhouse.Codec.Decimal.{decimal_to_string, starts_negative, pad_digits, insert_point}
use php_clickhouse.Codec.Decimal.Lossless.{
  PrintsDecimal, read_decimal, read_decimal-decimal_to_string,
}

abbrev show_int : ℤ → Bytes
show_int (pos n) = format_decimal n
show_int (negsuc n) = b'-' ∷ format_decimal (suc n)

show_int-PrintsDecimal : PrintsDecimal show_int
show_int-PrintsDecimal = record {
  digits = format_decimal;
  nonempty = format_decimal-ne-nil;
  all_digits = format_decimal-All;
  value = format_decimal-value;
  show_pos = λ n. refl;
  show_negsuc = λ n. refl;
}

-- The raw integer -42 with four places.
minus_forty_two : decimal_to_string show_int (negsuc 41) 4 ≡ codes "-0.0042"
unfolding decimal_to_string starts_negative pad_digits insert_point format_decimal
minus_forty_two = refl

read_decimal-decimal_to_string_example :
    read_decimal (decimal_to_string show_int (negsuc 41) 4) ≡ (negsuc 41, 4)
read_decimal-decimal_to_string_example =
    read_decimal-decimal_to_string show_int show_int-PrintsDecimal (negsuc 41) 4
