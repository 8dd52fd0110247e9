-- ===== src/Transport/Complete.antt =====
-- What the write loops have sent when they end.
use php_clickhouse.Base.{
  ℕ, zero, suc, ◌+◌, ◌≤◌, ◌<◌, ◌≡◌, ◌⊎◌, inl, inr, refl, ap, sym, subst, ◌∙◌, Bytes, true, false,
  List, [], ◌∷◌, ◌++◌, append_assoc, append-nil, Option, none, some, arith, ltb, Bool-cases, length,
  take, drop, if◌then◌else◌,
}
use php_clickhouse.Errors.{
  Exception, Outcome, returns, throws, is_kind, exception_poisons_connection,
}
use php_clickhouse.Transport.{
  Sent, took, send_interrupted, send_would_block, send_error, Writing, took_bytes, do_write,
  tls_write, unsent,
}

-- The bytes on the wire.
pub concat : List Bytes → Bytes
concat [] = []
concat (b ∷ bs) = b ++ concat bs

concat-append : (xs ys : List Bytes) → concat (xs ++ ys) ≡ concat xs ++ concat ys
unfolding concat
concat-append [] ys = refl
concat-append (b ∷ xs) ys = rw (concat-append xs ys) (sym (append_assoc b (concat xs) (concat ys)))

take-nothing : (n : ℕ) (p : Bytes) → p ≡ [] → take n p ≡ []
take-nothing zero p e = refl
take-nothing (suc n) [] e = refl
take-nothing (suc n) (c ∷ p) e = cc

take-add : (i n : ℕ) (p : Bytes) → take i p ++ take n (drop i p) ≡ take (i + n) p
take-add zero n p = ap (λ k. take k p) {x = n} (omega arith)
take-add (suc i) n [] = take-nothing n [] refl ∙ sym (take-nothing (suc i + n) [] refl)
take-add (suc i) n (c ∷ p) = let e : suc i + n ≡ suc (i + n) = omega arith in rw (e, take-add i n p)

take-whole : (n : ℕ) (p : Bytes) → length p ≤ n → take n p ≡ p
take-whole zero [] h = refl
take-whole zero (c ∷ p) h = absurd (omega arith)
take-whole (suc n) [] h = refl
take-whole (suc n) (c ∷ p) h = ap (λ l. c ∷ l) (take-whole n p (omega arith))

-- The bytes on the wire are a first part of the data, as long as `sent` says.
Prefix : Bytes → Writing → Type 0
Prefix p w = concat w.wire ≡ take w.sent p

took_bytes-Prefix : (p : Bytes) (n : ℕ) (w : Writing) → Prefix p w → Prefix p (took_bytes p n w)
unfolding Prefix took_bytes concat
took_bytes-Prefix p n w h =
    concat-append w.wire (take n (drop w.sent p) ∷ [])
    ∙ (rw (append-nil (take n (drop w.sent p)), h) (take-add w.sent n p))

-- How a write that ends has ended.
abbrev pub Ended : Bytes → Outcome ℕ × Writing → Type 0
Ended p (o, w) =
    (concat w.wire ≡ take w.sent p)
    × (((o ≡ returns (length p)) × (concat w.wire ≡ p))
        ⊎ ((e : Exception) × (o ≡ throws e)
            × (exception_poisons_connection e ≡ true)
            × (w.sent < length p)))

Ends : Bytes → Option (Outcome ℕ × Writing) → Type 0
Ends p o = (q : Outcome ℕ × Writing) → o ≡ some q → Ended p q

Ended-whole :
    (p : Bytes) (w : Writing)
    → Prefix p w
    → ltb w.sent (length p) ≡ false
    → Ended p (returns (length p), w)
unfolding Prefix
Ended-whole p w h e = (h, inl (refl, h ∙ take-whole w.sent p (ground arith)))

Ended-failed :
    (p : Bytes) (w : Writing) (e : Exception)
    → Prefix p w
    → ltb w.sent (length p) ≡ true
    → exception_poisons_connection e ≡ true
    → Ended p (throws e, w)
unfolding Prefix
Ended-failed p w e h l b = (h, inr (e, refl, b, ground arith))

nothing : (p : Bytes) → Ends p none
unfolding Ends
nothing p q e = cc

-- One round: the loop ends if all is sent, and else goes on with `again`.
round-Ends :
    (p : Bytes) (w : Writing) (again : Option (Outcome ℕ × Writing))
    → Prefix p w
    → (ltb w.sent (length p) ≡ true → Ends p again)
    → Ends p (if ltb w.sent (length p) then again else some (returns (length p), w))
unfolding Ends
round-Ends p w again h k q e = elim (Bool-cases (ltb w.sent (length p))) [
  | inl more ↦ k more q (rw more at e)
  | inr done ↦
      let same : (returns (length p), w) ≡ q = ground (arith, e) in
      subst (Ended p) same (Ended-whole p w h done)
]

failed-Ends :
    (p : Bytes) (w : Writing) (e : Exception)
    → Prefix p w
    → exception_poisons_connection e ≡ true
    → ltb w.sent (length p) ≡ true
    → Ends p (some (throws e, w))
unfolding Ends
failed-Ends p w e h b more q s =
    let same : (throws e, w) ≡ q = ground (arith, s) in
    subst (Ended p) same (Ended-failed p w e h more b)

do_write-Ends :
    (p : Bytes) (rest : List Sent) (w : Writing) → Prefix p w → Ends p (do_write p rest w)
unfolding do_write exception_poisons_connection is_kind
do_write-Ends p [] w h = round-Ends p w none h (λ more. nothing p)
do_write-Ends p (took n ∷ rest) w h =
    round-Ends p w _ h (λ more. do_write-Ends p rest _ (took_bytes-Prefix p (suc n) w h))
do_write-Ends p (send_interrupted ∷ rest) w h =
    round-Ends p w _ h (λ more. do_write-Ends p rest w h)
do_write-Ends p (send_would_block true ∷ rest) w h =
    round-Ends p w _ h (λ more. do_write-Ends p rest w h)
do_write-Ends p (send_would_block false ∷ rest) w h = round-Ends p w _ h (failed-Ends p w _ h refl)
do_write-Ends p (send_error ∷ rest) w h = round-Ends p w _ h (failed-Ends p w _ h refl)

tls_write-Ends :
    (p : Bytes) (rest : List ℕ) (w : Writing) → Prefix p w → Ends p (tls_write p rest w)
unfolding tls_write exception_poisons_connection is_kind
tls_write-Ends p [] w h = round-Ends p w none h (λ more. nothing p)
tls_write-Ends p (n ∷ rest) w h = elim (Bool-cases (ltb 0 n)) [
  | inl some_bytes ↦
      rw some_bytes
        (round-Ends p w _ h (λ more. tls_write-Ends p rest _ (took_bytes-Prefix p n w h)))
  | inr no_bytes ↦ rw no_bytes (round-Ends p w _ h (failed-Ends p w _ h refl))
]

-- A write that ends has sent a first part of the data, each byte once and in order, however the calls of
-- send cut it up and whatever interrupts them. It ends by reporting the length, and then all of the data
-- is sent; or it throws an exception that makes the connection unusable, and then some is not.
pub do_write-ends_whole_or_broken :
    (p : Bytes) (answers : List Sent) (q : Outcome ℕ × Writing)
    → do_write p answers unsent ≡ some q
    → Ended p q
unfolding Ends Prefix concat
do_write-ends_whole_or_broken p answers q e = do_write-Ends p answers unsent refl q e

-- A write over TLS that ends has sent a first part of the data, each byte once and in order. It
-- ends by reporting the length, and then all of the data is sent; or it throws an exception that
-- makes the connection unusable, and then some is not.
pub tls_write-ends_whole_or_broken :
    (p : Bytes) (answers : List ℕ) (q : Outcome ℕ × Writing)
    → tls_write p answers unsent ≡ some q
    → Ended p q
unfolding Ends Prefix concat
tls_write-ends_whole_or_broken p answers q e = tls_write-Ends p answers unsent refl q e

-- How many of the answers took bytes.
unfoldable pub takes : List Sent → ℕ
takes [] = 0
takes (took n ∷ rest) = suc (takes rest)
takes (send_interrupted ∷ rest) = takes rest
takes (send_would_block ready ∷ rest) = takes rest
takes (send_error ∷ rest) = takes rest

ends_by_takes :
    (p : Bytes) (rest : List Sent) (w : Writing)
    → length p ≤ w.sent + takes rest
    → (q : Outcome ℕ × Writing) × (do_write p rest w ≡ some q)
unfolding do_write takes took_bytes
ends_by_takes p [] w h = ((returns (length p), w), ground arith)
ends_by_takes p (took n ∷ rest) w h = elim (Bool-cases (ltb w.sent (length p))) [
  | inl more ↦ rw more (ends_by_takes p rest (took_bytes p (suc n) w) (omega arith))
  | inr done ↦ rw done ((returns (length p), w), refl)
]
ends_by_takes p (send_interrupted ∷ rest) w h = elim (Bool-cases (ltb w.sent (length p))) [
  | inl more ↦ rw more (ends_by_takes p rest w h)
  | inr done ↦ rw done ((returns (length p), w), refl)
]
ends_by_takes p (send_would_block true ∷ rest) w h = elim (Bool-cases (ltb w.sent (length p))) [
  | inl more ↦ rw more (ends_by_takes p rest w h)
  | inr done ↦ rw done ((returns (length p), w), refl)
]
ends_by_takes p (send_would_block false ∷ rest) w h = elim (Bool-cases (ltb w.sent (length p))) [
  | inl more ↦ rw more ((_, _), refl)
  | inr done ↦ rw done ((returns (length p), w), refl)
]
ends_by_takes p (send_error ∷ rest) w h = elim (Bool-cases (ltb w.sent (length p))) [
  | inl more ↦ rw more ((_, _), refl)
  | inr done ↦ rw done ((returns (length p), w), refl)
]

-- A write ends once as many calls of send have taken bytes as there are bytes to send, whatever other
-- answers come between them.
pub do_write-terminates :
    (p : Bytes) (answers : List Sent)
    → length p ≤ takes answers
    → (q : Outcome ℕ × Writing) × (do_write p answers unsent ≡ some q)
do_write-terminates p answers h = ends_by_takes p answers unsent (omega arith)
