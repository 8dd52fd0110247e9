-- ===== src/ResultObject/Totals.antt =====
-- The numbers of the Summary object, from the packets of the query.
use php_clickhouse.Base.{ℕ, ◌%◌, ◌^◌, ◌<◌, ◌≡◌, ap, ◌∙◌, List, Option, some, arith}
use php_clickhouse.Base.Int.{pos, to_signed, to_unsigned}
use php_clickhouse.Stream.{Packet, Opening, exhausted}
use php_clickhouse.Result
use php_clickhouse.Result.{Result, start, empty_summary, on_packets}
use php_clickhouse.Result.Statistics.{sum_of, largest_of, on_packets-sums}
use php_clickhouse.Errors.{Outcome, PhpException}
use php_clickhouse.Connection.{Connection}
use php_clickhouse.Result.Release.{Reached}
use php_clickhouse.Result.Account.{query_packets, summary-drained}
use php_clickhouse.ResultObject.{
  ResultObject, make_summary, affected_rows, to_zend_long, summary_of,
}

to_zend_long-small : (n : ℕ) → n < 2 ^ 63 → to_zend_long n ≡ pos n
unfolding to_zend_long to_signed to_unsigned
to_zend_long-small n h = ground arith

summed : {s k : ℕ} → s ≡ k % 2 ^ 64 → k < 2 ^ 63 → to_zend_long s ≡ pos k
summed {s} {k} e h =
    let small : s ≡ k = omega (arith, e) in
    to_zend_long-small s (omega (arith, small)) ∙ ap pos small

-- The numbers, where the statistics count these packets.
make_summary-sums :
    {Column Value : Type 0} (o : ResultObject Column Value) (r : Result Column) (ps : List Packet)
    → o.result ≡ some r
    → Result.get_summary r ≡ on_packets ps empty_summary
    → sum_of (λ p. p.rows) ps < 2 ^ 63
    → sum_of (λ p. p.bytes) ps < 2 ^ 63
    → sum_of (λ p. p.written_rows) ps < 2 ^ 63
    → sum_of (λ p. p.written_bytes) ps < 2 ^ 63
    → largest_of (λ p. p.total_rows) ps < 2 ^ 63
    → let s = make_summary o.result in
      (s.read_rows ≡ pos (sum_of (λ p. p.rows) ps))
      × (s.read_bytes ≡ pos (sum_of (λ p. p.bytes) ps))
      × (s.written_rows ≡ pos (sum_of (λ p. p.written_rows) ps))
      × (s.written_bytes ≡ pos (sum_of (λ p. p.written_bytes) ps))
      × (s.total_rows_to_read ≡ pos (largest_of (λ p. p.total_rows) ps))
      × (affected_rows o ≡ pos (sum_of (λ p. p.written_rows) ps))
unfolding make_summary affected_rows summary_of
make_summary-sums o r ps e f a b c d t =
    let (rows, bytes, written, written_bytes, total) = on_packets-sums ps in
    rw (e, f)
      (
        summed rows a,
        summed bytes b,
        summed written c,
        summed written_bytes d,
        to_zend_long-small _ (omega (arith, total, t)) ∙ ap pos total,
        summed written c,
      )

-- At the end of a query's stream, whatever was called before, the numbers of the Summary object and of affectedRows are
-- the sums of what all progress packets of the query report, and the largest total that one of them reports, if these
-- are below 2 ^ 63.
pub make_summary-drained :
    {Column Value : Type 0} (cell : Column → ℕ → Outcome Value) (conn : Connection)
    (opening : Opening Column) (p : Option PhpException) (o : ResultObject Column Value)
    (r : Result Column)
    → o.result ≡ some r
    → Reached cell (start conn opening p).0 r
    → r.stream ≡ exhausted
    → sum_of (λ p. p.rows) (query_packets opening) < 2 ^ 63
    → sum_of (λ p. p.bytes) (query_packets opening) < 2 ^ 63
    → sum_of (λ p. p.written_rows) (query_packets opening) < 2 ^ 63
    → sum_of (λ p. p.written_bytes) (query_packets opening) < 2 ^ 63
    → largest_of (λ p. p.total_rows) (query_packets opening) < 2 ^ 63
    → let s = make_summary o.result in
      let ps = query_packets opening in
      (s.read_rows ≡ pos (sum_of (λ p. p.rows) ps))
      × (s.read_bytes ≡ pos (sum_of (λ p. p.bytes) ps))
      × (s.written_rows ≡ pos (sum_of (λ p. p.written_rows) ps))
      × (s.written_bytes ≡ pos (sum_of (λ p. p.written_bytes) ps))
      × (s.total_rows_to_read ≡ pos (largest_of (λ p. p.total_rows) ps))
      × (affected_rows o ≡ pos (sum_of (λ p. p.written_rows) ps))
make_summary-drained cell conn opening p o r held h e a b c d t =
    make_summary-sums o r (query_packets opening) held (summary-drained cell conn opening p r h e) a
      b c d t
