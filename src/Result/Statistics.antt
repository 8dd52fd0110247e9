-- ===== src/Result/Statistics.antt =====
-- The statistics that the callbacks of a query add up.
use php_clickhouse.Base.{ℕ, ◌+◌, ◌%◌, ◌^◌, ◌<◌, ◌≡◌, List, [], ◌∷◌, arith, max}
use php_clickhouse.Stream.{Packet, progress, profile, Progress}
use php_clickhouse.Result.{Summary, empty_summary, on_progress, on_profile, on_packet, on_packets}

-- The sum of a number over the progress packets, and the largest of them.
unfoldable pub sum_of : (Progress → ℕ) → List Packet → ℕ
sum_of f [] = 0
sum_of f (progress p ∷ ps) = f p + sum_of f ps
sum_of f (profile p ∷ ps) = sum_of f ps

unfoldable pub largest_of : (Progress → ℕ) → List Packet → ℕ
largest_of f [] = 0
largest_of f (progress p ∷ ps) = max (f p) (largest_of f ps)
largest_of f (profile p ∷ ps) = largest_of f ps

-- The statistics, beside what was there before the packets.
Adds : Summary → List Packet → Summary → Type 0
Adds s ps t =
    (t.read_rows % 2 ^ 64 ≡ (s.read_rows + sum_of (λ p. p.rows) ps) % 2 ^ 64)
    × (t.read_bytes % 2 ^ 64 ≡ (s.read_bytes + sum_of (λ p. p.bytes) ps) % 2 ^ 64)
    × (t.written_rows % 2 ^ 64 ≡ (s.written_rows + sum_of (λ p. p.written_rows) ps) % 2 ^ 64)
    × (t.written_bytes % 2 ^ 64 ≡ (s.written_bytes + sum_of (λ p. p.written_bytes) ps) % 2 ^ 64)
    × (t.total_rows_to_read ≡ max s.total_rows_to_read (largest_of (λ p. p.total_rows) ps))

on_packets-Adds : (ps : List Packet) (s : Summary) → Adds s ps (on_packets ps s)
unfolding Adds on_packets on_packet on_progress on_profile sum_of largest_of
on_packets-Adds [] s = (omega arith, omega arith, omega arith, omega arith, omega arith)
on_packets-Adds (progress p ∷ ps) s =
    let (rows, bytes, written, written_bytes, total) = on_packets-Adds ps (on_progress p s) in
    (
      omega (arith, rows),
      omega (arith, bytes),
      omega (arith, written),
      omega (arith, written_bytes),
      ground (arith, total),
    )
on_packets-Adds (profile p ∷ ps) s = ground (arith, on_packets-Adds ps (on_profile p s))

-- Each sum fits a uint64_t.
Fits : Summary → Type 0
Fits s =
    (s.read_rows < 2 ^ 64)
    × (s.read_bytes < 2 ^ 64)
    × (s.written_rows < 2 ^ 64)
    × (s.written_bytes < 2 ^ 64)

on_packets-Fits : (ps : List Packet) (s : Summary) → Fits s → Fits (on_packets ps s)
unfolding Fits on_packets on_packet on_progress on_profile
on_packets-Fits [] s h = h
on_packets-Fits (progress p ∷ ps) s h =
    on_packets-Fits ps (on_progress p s) (omega arith, omega arith, omega arith, omega arith)
on_packets-Fits (profile p ∷ ps) s h = on_packets-Fits ps (on_profile p s) (ground (arith, h))

-- The statistics after some packets are the sums of what the progress packets report, each wrapped
-- at 2 ^ 64, and the largest total that one of them reports, whatever profile packets come between.
pub on_packets-sums :
    (ps : List Packet)
    → ((on_packets ps empty_summary).read_rows ≡ sum_of (λ p. p.rows) ps % 2 ^ 64)
      × ((on_packets ps empty_summary).read_bytes ≡ sum_of (λ p. p.bytes) ps % 2 ^ 64)
      × ((on_packets ps empty_summary).written_rows ≡ sum_of (λ p. p.written_rows) ps % 2 ^ 64)
      × ((on_packets ps empty_summary).written_bytes ≡ sum_of (λ p. p.written_bytes) ps % 2 ^ 64)
      × ((on_packets ps empty_summary).total_rows_to_read ≡ largest_of (λ p. p.total_rows) ps)
unfolding Adds Fits
on_packets-sums ps =
    let (rows, bytes, written, written_bytes, total) = on_packets-Adds ps empty_summary in
    let (a, b, c, d) =
      on_packets-Fits ps empty_summary (omega arith, omega arith, omega arith, omega arith) in
    (
      omega (arith, rows, a),
      omega (arith, bytes, b),
      omega (arith, written, c),
      omega (arith, written_bytes, d),
      omega (arith, total),
    )
