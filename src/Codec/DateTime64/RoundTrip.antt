-- ===== src/Codec/DateTime64/RoundTrip.antt =====
-- DateTime64 values written and read back, and read and written back.
use php_clickhouse.Base.{ℕ, zero, suc, ◌+◌, ◌-◌, ◌*◌, ◌/◌, ◌%◌, ◌≤◌, ◌<◌, ◌≡◌, sym, ap, arith}
use php_clickhouse.Base.Int.{ℤ, pos, negsuc, ◌+ℤ◌, ◌*ℤ◌}
use php_clickhouse.Codec.DateTime64.{
  scale_loop, scale_of, split_ticks, ticks_to_time, time_to_ticks,
}
use php_clickhouse.Codec.DateTime64.Floor.{
  scale_of-pos, split_ticks_pos, split_ticks_neg, ticks_to_time_parts, ticks_to_time_floor,
}

div_unique : (a s frac : ℕ) → frac < s → (a * s + frac) / s ≡ a
div_unique a s frac h = grind arith

mod_unique : (a s frac : ℕ) → frac < s → (a * s + frac) % s ≡ frac
mod_unique a s frac h = grind arith

join_pos : (s a frac : ℕ) → pos a *ℤ s +ℤ pos frac ≡ pos (a * s + frac)
join_pos s a frac = ground arith

pub join_neg :
    (s a frac : ℕ) → frac < s → negsuc a *ℤ s +ℤ pos frac ≡ negsuc (a * s + (s - 1 - frac))
join_neg s a frac h = ground arith

pub split_ticks_join :
    (s : ℕ) (sec : ℤ) (frac : ℕ)
    → 0 < s
    → frac < s
    → split_ticks s (sec *ℤ s +ℤ pos frac) ≡ (sec, pos frac)
split_ticks_join s (pos a) frac h f = rw (
  join_pos s a frac,
  split_ticks_pos s (a * s + frac) h,
  div_unique a s frac f,
  mod_unique a s frac f,
)
split_ticks_join s (negsuc a) frac h f =
    let rest = s - 1 - frac in
    rw
      (
        join_neg s a frac f,
        split_ticks_neg s (a * s + rest) h,
        div_unique a s rest (omega arith),
        mod_unique a s rest (omega arith),
      )
      (ap (λ (k : ℕ). (negsuc a, pos k)) (omega arith))

pub ticks_lt : (us s : ℕ) → us < 1000000 → 0 < s → us * s / 1000000 < s
ticks_lt us s h p = grind arith

-- Written and read back, in integers without a bound.
pub read_back :
    (p : ℕ) (sec : ℤ) (us : ℕ)
    → us < 1000000
    → ticks_to_time p (time_to_ticks p sec us)
      ≡ (sec, us * scale_of p / 1000000 * 1000000 / scale_of p)
unfolding time_to_ticks
read_back p sec us h =
    ticks_to_time_parts p _ sec (us * scale_of p / 1000000)
      (split_ticks_join (scale_of p) sec _ (scale_of-pos p) (ticks_lt us _ h (scale_of-pos p)))
      (ticks_lt us _ h (scale_of-pos p))

-- Precisions at most 6, one by one.
up_to_six : (P : ℕ → Type 0) → P 0 → P 1 → P 2 → P 3 → P 4 → P 5 → P 6 → (p : ℕ) → p ≤ 6 → P p
up_to_six P a b c d e f g zero h = a
up_to_six P a b c d e f g (suc zero) h = b
up_to_six P a b c d e f g (suc (suc zero)) h = c
up_to_six P a b c d e f g (suc (suc (suc zero))) h = d
up_to_six P a b c d e f g (suc (suc (suc (suc zero)))) h = e
up_to_six P a b c d e f g (suc (suc (suc (suc (suc zero))))) h = f
up_to_six P a b c d e f g (suc (suc (suc (suc (suc (suc zero)))))) h = g
up_to_six P a b c d e f g (suc (suc (suc (suc (suc (suc (suc p))))))) h = absurd (omega arith)

TicksExact : ℕ → Type 0
TicksExact p =
    (frac : ℕ) → frac < scale_of p → frac * 1000000 / scale_of p * scale_of p / 1000000 ≡ frac

ticks_exact : (p : ℕ) → p ≤ 6 → TicksExact p
unfolding TicksExact scale_of scale_loop
ticks_exact =
    up_to_six TicksExact (λ n h. omega arith) (λ n h. omega arith) (λ n h. omega arith)
      (λ n h. omega arith) (λ n h. omega arith) (λ n h. omega arith) (λ n h. omega arith)

-- Read and written back, in integers without a bound.
pub written_back :
    (p : ℕ) (t : ℤ) → p ≤ 6 → time_to_ticks p (ticks_to_time p t).0 (ticks_to_time p t).1 ≡ t
unfolding time_to_ticks TicksExact
written_back p t h =
    let (frac, whole, small, micros, _) = ticks_to_time_floor p t in
    rw (micros, ticks_exact p h frac small) (sym whole)
