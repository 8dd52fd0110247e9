-- ===== src/Codec/Decimal.antt =====
-- `ch_decimal_to_string` of ch_client.cpp. The decimal print of an Int128, `oss << raw`, is that of
-- the client library: a parameter, `show`.
pub mod Lossless
mod Examples
use php_clickhouse.Base.{
  ℕ, suc, ◌+◌, ◌-◌, Bytes, [], ◌∷◌, ◌++◌, Bool, true, false, leb, ◌==◌, if◌then◌else◌, length, take,
  drop, replicate,
}
use php_clickhouse.Base.Int.{ℤ}

-- !str.empty() && str.front() == '-'
pub starts_negative : Bytes → Bool
starts_negative [] = false
starts_negative (c ∷ s) = c == b'-'

-- digits.insert(0, scale - digits.size() + 1, '0') where the digits do not reach past the point
pub pad_digits : ℕ → Bytes → Bytes
pad_digits scale digits =
    if leb (length digits) scale
    then replicate (scale - length digits + 1) b'0' ++ digits
    else digits

pub insert_point : ℕ → Bytes → Bytes
insert_point scale digits =
    let point = length digits - scale in take point digits ++ b'.' ∷ drop point digits

module _ (show : ℤ → Bytes) where
  pub decimal_to_string : ℤ → ℕ → Bytes
  decimal_to_string raw scale =
      let str = show raw in
      let negative = starts_negative str in
      let digits = if negative then drop 1 str else str in
      let out = insert_point scale (pad_digits scale digits) in
      if scale == 0 then str else if negative then b'-' ∷ out else out
