-- ===== src/Codec/DateTime64/Floor.antt =====
-- What a DateTime64 cell is read as.
use php_clickhouse.Base.{◌-◌, ◌⊎◌, ℕ, zero, suc, ◌*◌, ◌/◌, ◌%◌, ◌<◌, ◌≡◌, refl, arith}
use php_clickhouse.Base.Int.{ℤ, pos, negsuc, ◌+ℤ◌, ◌*ℤ◌}
use php_clickhouse.Codec.DateTime64.{
  scale_loop, scale_of, floor_parts, split_ticks, usec_of, ticks_to_time,
}

scale_loop-pos : (i s : ℕ) → 0 < s → 0 < scale_loop i s
unfolding scale_loop
scale_loop-pos zero s h = h
scale_loop-pos (suc i) s h = scale_loop-pos i (s * 10) (omega arith)

pub scale_of-pos : (p : ℕ) → 0 < scale_of p
unfolding scale_of
scale_of-pos p = scale_loop-pos p 1 (omega arith)

pub split_ticks_pos : (s n : ℕ) → 0 < s → split_ticks s (pos n) ≡ (pos (n / s), pos (n % s))
unfolding split_ticks floor_parts
split_ticks_pos s n h = ground arith

suc_div :
    (s n : ℕ)
    → 0 < s
    → ((suc n / s ≡ n / s) × (suc n % s ≡ suc (n % s)) × (suc (n % s) < s))
      ⊎ ((suc n / s ≡ suc (n / s)) × (suc n % s ≡ 0) × (suc (n % s) ≡ s))
suc_div s n h = grind arith

pub split_ticks_neg :
    (s n : ℕ) → 0 < s → split_ticks s (negsuc n) ≡ (negsuc (n / s), pos (s - 1 - n % s))
unfolding split_ticks floor_parts
split_ticks_neg s n h = ground (arith, suc_div s n h)

usec-eq : (s frac : ℕ) → 0 < s → frac < s → usec_of s (pos frac) ≡ frac * 1000000 / s
unfolding usec_of
usec-eq s frac h f = ground arith

pub ticks_to_time_parts :
    (p : ℕ) (t : ℤ) (sec : ℤ) (frac : ℕ)
    → split_ticks (scale_of p) t ≡ (sec, pos frac)
    → frac < scale_of p
    → ticks_to_time p t ≡ (sec, frac * 1000000 / scale_of p)
unfolding ticks_to_time
ticks_to_time_parts p t sec frac e h = rw (e, usec-eq (scale_of p) frac (scale_of-pos p) h)

micros_lt : (s frac : ℕ) → frac < s → frac * 1000000 / s < 1000000
micros_lt s frac h = grind arith

floor_pos : (s n : ℕ) → 0 < s → pos n ≡ pos (n / s) *ℤ s +ℤ pos (n % s)
floor_pos s n h = ground arith

floor_neg : (s n : ℕ) → 0 < s → negsuc n ≡ negsuc (n / s) *ℤ s +ℤ pos (s - 1 - n % s)
floor_neg s n h = ground arith

abbrev pub FloorsTo : ℕ → ℤ → ℤ × ℕ → Type 0
FloorsTo scale t (sec, us) =
    (frac : ℕ) × (t ≡ sec *ℤ scale +ℤ pos frac)
    × (frac < scale)
    × (us ≡ frac * 1000000 / scale)
    × (us < 1000000)

-- The second that a cell is read as is the floor of its ticks, before the epoch too: the ticks are
-- `sec` whole seconds and `frac` further ticks, less than a second of them, and the microseconds are
-- `frac` in units of a microsecond, rounded down, and less than a second.
pub ticks_to_time_floor : (p : ℕ) (t : ℤ) → FloorsTo (scale_of p) t (ticks_to_time p t)
ticks_to_time_floor p (pos n) =
    let s = scale_of p in
    let h = scale_of-pos p in
    rw (ticks_to_time_parts p (pos n) _ _ (split_ticks_pos s n h) (omega arith))
      (n % s, floor_pos s n h, omega arith, refl, micros_lt s (n % s) (omega arith))
ticks_to_time_floor p (negsuc n) =
    let s = scale_of p in
    let h = scale_of-pos p in
    rw (ticks_to_time_parts p (negsuc n) _ _ (split_ticks_neg s n h) (omega arith))
      (s - 1 - n % s, floor_neg s n h, omega arith, refl, micros_lt s (s - 1 - n % s) (omega arith))
