-- ===== src/Codec/DateTime64/Examples.antt =====
-- Points in time before and after the epoch.
use php_clickhouse.Base.{◌≡◌, refl, ◌*◌, ◌^◌, ◌<◌, arith}
use php_clickhouse.Base.Int.{pos, negsuc, pos_part, ◌*ℤ◌}
use php_clickhouse.Codec.DateTime64.{
  ticks_to_time, time_to_ticks, scale_of, scale_loop, split_ticks, floor_parts, usec_of,
}
use php_clickhouse.Codec.DateTime64.Bounds.{
  InInt64, time_to_ticks-InInt64, ticks_to_time-time_to_ticks, time_to_ticks-ticks_to_time,
}

-- One millisecond before the epoch.
before_epoch : ticks_to_time 3 (negsuc 0) ≡ (negsuc 0, 999000)
unfolding ticks_to_time scale_of scale_loop split_ticks floor_parts usec_of
before_epoch = refl

ticks_to_time-time_to_ticks_example :
    InInt64 (time_to_ticks 3 (negsuc 4) 123456)
    × (ticks_to_time 3 (time_to_ticks 3 (negsuc 4) 123456) ≡ (negsuc 4, 123000))
unfolding scale_of scale_loop
ticks_to_time-time_to_ticks_example =
    ticks_to_time-time_to_ticks 3 (negsuc 4) 123456 (omega arith) (omega arith) (omega arith)
      (omega arith)

-- The lowest number of milliseconds that is a second above the lowest int64_t.
time_to_ticks-ticks_to_time_example :
    let (sec, us) = ticks_to_time 3 (negsuc 9223372036854774807) in
    InInt64 (sec *ℤ scale_of 3)
    × (us * scale_of 3 < 2 ^ 63)
    × (time_to_ticks 3 sec us ≡ negsuc 9223372036854774807)
unfolding scale_of scale_loop
time_to_ticks-ticks_to_time_example =
    time_to_ticks-ticks_to_time 3 (negsuc 9223372036854774807) (omega arith) (omega arith)
      (omega arith)

-- The last microsecond of the year 2262 that fits.
time_to_ticks-InInt64_example :
    let ticks = time_to_ticks 9 (pos 9223372035) 999999 in
    let (sec, frac) = split_ticks (scale_of 9) ticks in
    InInt64 (pos 9223372035 *ℤ scale_of 9)
    × (999999 * scale_of 9 < 2 ^ 63)
    × InInt64 ticks
    × InInt64 sec
    × (pos_part frac * 1000000 < 2 ^ 63)
    × ((ticks_to_time 9 ticks).1 < 1000000)
time_to_ticks-InInt64_example =
    time_to_ticks-InInt64 9 (pos 9223372035) 999999 (omega arith) (omega arith) (omega arith)
      (omega arith)
