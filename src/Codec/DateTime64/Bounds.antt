-- ===== src/Codec/DateTime64/Bounds.antt =====
-- The int64_t arithmetic of the DateTime64 cases stays in its range.
use native.Mathlib.Nat.{mul-le-mul_right}
use php_clickhouse.Base.{ℕ, zero, suc, ◌*◌, ◌-◌, ◌/◌, ◌^◌, ◌≤◌, ◌<◌, ◌≡◌, ◌+◌, subst, arith}
use php_clickhouse.Base.Int.{ℤ, pos, negsuc, pos_part, neg_part, ◌+ℤ◌, ◌*ℤ◌}
use php_clickhouse.Codec.DateTime64.{
  scale_loop, scale_of, split_ticks, ticks_to_time, time_to_ticks,
}
use php_clickhouse.Codec.DateTime64.Floor.{scale_of-pos, ticks_to_time_floor}
use php_clickhouse.Codec.DateTime64.RoundTrip.{
  join_neg, ticks_lt, split_ticks_join, read_back, written_back,
}

abbrev pub InInt64 : ℤ → Type 0
InInt64 z = (pos_part z < 2 ^ 63) × (neg_part z ≤ 2 ^ 63)

scale_of-le : (p : ℕ) → p ≤ 9 → scale_of p ≤ 1000000000
unfolding scale_of scale_loop
scale_of-le zero h = omega arith
scale_of-le (suc zero) h = omega arith
scale_of-le (suc (suc zero)) h = omega arith
scale_of-le (suc (suc (suc zero))) h = omega arith
scale_of-le (suc (suc (suc (suc zero)))) h = omega arith
scale_of-le (suc (suc (suc (suc (suc zero))))) h = omega arith
scale_of-le (suc (suc (suc (suc (suc (suc zero)))))) h = omega arith
scale_of-le (suc (suc (suc (suc (suc (suc (suc zero))))))) h = omega arith
scale_of-le (suc (suc (suc (suc (suc (suc (suc (suc zero)))))))) h = omega arith
scale_of-le (suc (suc (suc (suc (suc (suc (suc (suc (suc zero))))))))) h = omega arith
scale_of-le (suc (suc (suc (suc (suc (suc (suc (suc (suc (suc p)))))))))) h = absurd (omega arith)

-- A second whose successor still fits: all its ticks fit.
second_fits : (a s : ℕ) → a ≤ 9223372035 → s ≤ 1000000000 → suc a * s < 2 ^ 63
second_fits a s h l =
    let whole : suc a ≤ 9223372036 = omega arith in omega (arith, mul-le-mul_right s whole)

ticks-InInt64 :
    (sec : ℤ) (s f : ℕ)
    → pos_part sec ≤ 9223372035
    → neg_part sec ≤ 9223372036
    → s ≤ 1000000000
    → f < s
    → InInt64 (sec *ℤ s) × InInt64 (sec *ℤ s +ℤ pos f)
ticks-InInt64 (pos a) s f after before l h = let fits = second_fits a s after l in ground arith
ticks-InInt64 (negsuc a) s f after before l h =
    let fits = second_fits a s (omega arith) l in
    ((ground arith, ground arith), rw (join_neg s a f h) (omega arith, omega arith))

micros_fit : (us s : ℕ) → us < 1000000 → s ≤ 1000000000 → us * s < 2 ^ 63
micros_fit us s h l = omega (arith, mul-le-mul_right s h)

-- A time within 9223372035 seconds after the epoch or 9223372036 before it, at a precision of at most 9: the products,
-- the sum and the ticks that writing computes fit an int64_t, and so do the quotient, the remainder and the product
-- that reading the ticks back computes, and the microseconds are less than a second.
pub time_to_ticks-InInt64 :
    (p : ℕ) (sec : ℤ) (us : ℕ)
    → p ≤ 9
    → pos_part sec ≤ 9223372035
    → neg_part sec ≤ 9223372036
    → us < 1000000
    → let ticks = time_to_ticks p sec us in
      let (sec', frac) = split_ticks (scale_of p) ticks in
      InInt64 (sec *ℤ scale_of p)
      × (us * scale_of p < 2 ^ 63)
      × InInt64 ticks
      × InInt64 sec'
      × (pos_part frac * 1000000 < 2 ^ 63)
      × ((ticks_to_time p ticks).1 < 1000000)
unfolding time_to_ticks
time_to_ticks-InInt64 p sec us h after before u =
    let s = scale_of p in
    let l = scale_of-le p h in
    let small = ticks_lt us s u (scale_of-pos p) in
    let (product, ticks) = ticks-InInt64 sec s (us * s / 1000000) after before l small in
    let (_, _, _, _, micros) = ticks_to_time_floor p (time_to_ticks p sec us) in
    rw (split_ticks_join s sec (us * s / 1000000) (scale_of-pos p) small)
      (product, micros_fit us s u l, ticks, (omega arith, omega arith), omega arith, micros)

-- A time within 9223372035 seconds after the epoch or 9223372036 before it, with less than a second of microseconds, at
-- a precision of at most 9, is written as ticks that fit an int64_t; read back they give its second, and its
-- microseconds cut down to whole ticks of the column.
pub ticks_to_time-time_to_ticks :
    (p : ℕ) (sec : ℤ) (us : ℕ)
    → p ≤ 9
    → pos_part sec ≤ 9223372035
    → neg_part sec ≤ 9223372036
    → us < 1000000
    → InInt64 (time_to_ticks p sec us)
      × (ticks_to_time p (time_to_ticks p sec us)
          ≡ (sec, us * scale_of p / 1000000 * 1000000 / scale_of p))
ticks_to_time-time_to_ticks p sec us h after before u =
    let (_, _, ticks, _, _, _) = time_to_ticks-InInt64 p sec us h after before u in
    (ticks, read_back p sec us u)

-- The whole seconds of ticks that are a second away from the lowest int64_t.
product-InInt64 :
    (sec : ℤ) (s f : ℕ)
    → f < s
    → pos_part (sec *ℤ s +ℤ pos f) < 2 ^ 63
    → neg_part (sec *ℤ s +ℤ pos f) + s ≤ 2 ^ 63
    → InInt64 (sec *ℤ s)
product-InInt64 (pos a) s f l high low = ground arith
product-InInt64 (negsuc a) s f l high low =
    let e = join_neg s a f l in
    let low' : neg_part (negsuc (a * s + (s - 1 - f))) + s ≤ 2 ^ 63 = rw e at low in
    (ground arith, ground arith)

-- The ticks of a cell of precision at most 6, which are an int64_t and at least a second above the lowest, are kept
-- where the cell is read and written back, before the epoch too; and the products that writing computes fit an int64_t.
pub time_to_ticks-ticks_to_time :
    (p : ℕ) (t : ℤ)
    → p ≤ 6
    → pos_part t < 2 ^ 63
    → neg_part t + scale_of p ≤ 2 ^ 63
    → let (sec, us) = ticks_to_time p t in
      InInt64 (sec *ℤ scale_of p) × (us * scale_of p < 2 ^ 63) × (time_to_ticks p sec us ≡ t)
time_to_ticks-ticks_to_time p t h high low =
    let (frac, whole, small, _, micros) = ticks_to_time_floor p t in
    let s = scale_of p in
    (
      product-InInt64 (ticks_to_time p t).0 s frac small
          (subst (λ z. pos_part z < 2 ^ 63) whole high)
          (subst (λ z. neg_part z + s ≤ 2 ^ 63) whole low),
      micros_fit _ s micros (scale_of-le p (omega (arith, h))),
      written_back p t h,
    )
