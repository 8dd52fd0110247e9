-- ===== src/Codec/DateTime64.antt =====
-- The DateTime64 cases of `ch_append_value` and `ch_column_value_to_zval` in ch_client.cpp. Ticks and
-- seconds are int64_t in the source; here they are integers without a bound.
pub mod Floor
pub mod RoundTrip
pub mod Bounds
mod Examples
use php_clickhouse.Base.{ℕ, zero, suc, ◌*◌, ◌/◌, ltb, if◌then◌else◌}
use php_clickhouse.Base.Int.{ℤ, pos, pos_part, is_negative, ◌+ℤ◌, ◌*ℤ◌, ◌/ℤ◌, ◌%ℤ◌, negsuc}

-- for (i < precision) scale *= 10
scale_loop : ℕ → ℕ → ℕ
scale_loop zero scale = scale
scale_loop (suc i) scale = scale_loop i (scale * 10)

pub scale_of : ℕ → ℕ
scale_of precision = scale_loop precision 1

-- The quotient and remainder of C, moved down to the floor where the remainder is negative.
pub floor_parts : ℤ → ℤ → ℕ → ℤ × ℤ
floor_parts sec frac scale =
    if is_negative frac then (sec +ℤ negsuc 0, frac +ℤ pos scale) else (sec, frac)

pub split_ticks : ℕ → ℤ → ℤ × ℤ
split_ticks scale ticks = floor_parts (ticks /ℤ scale) (ticks %ℤ scale) scale

pub usec_of : ℕ → ℤ → ℕ
usec_of scale frac = if ltb 1 scale then pos_part frac * 1000000 / scale else 0

-- Reading a cell: what `ch_make_datetime_immutable` is given.
pub ticks_to_time : ℕ → ℤ → ℤ × ℕ
ticks_to_time precision ticks =
    let (sec, frac) = split_ticks (scale_of precision) ticks in
    (sec, usec_of (scale_of precision) frac)

-- Writing a DateTimeInterface with `sec` and `us`.
pub time_to_ticks : ℕ → ℤ → ℕ → ℤ
time_to_ticks precision sec us =
    let scale = scale_of precision in sec *ℤ scale +ℤ pos (us * scale / 1000000)
