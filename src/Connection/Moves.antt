-- ===== src/Connection/Moves.antt =====
-- What a call on a result or a batch does to its connection: it keeps it, or gives it back once.
use php_clickhouse.Base.{
  ℕ, suc, ◌+◌, ◌≡◌, ◌⊎◌, inl, inr, Bool, true, false, List, [], ◌∷◌, ◌++◌, Option, none, some,
  arith, ap, length, length-append,
}
use php_clickhouse.Connection.{Connection}

-- A handle has given back no connection before it is released, and one afterwards.
abbrev pub one_if : Bool → ℕ
one_if false = 0
one_if true = 1

-- The connections of a handle that are still out.
abbrev pub still_out : Bool → ℕ
still_out false = 1
still_out true = 0

-- The flags and the connections given back, before and after a call.
abbrev pub Moves : Bool → List Connection → Bool → List Connection → Type 0
Moves b cs b' cs' =
    ((b' ≡ b) × (cs' ≡ cs)) ⊎ ((b ≡ false) × (b' ≡ true) × (c : Connection) × (cs' ≡ cs ++ c ∷ []))

-- The connections that are out after an answer of the pool.
abbrev pub one_more : Option Connection → ℕ → ℕ
one_more none n = n
one_more (some _) n = suc n

-- A call that moves a handle leaves out the connections that it does not give back.
pub Moves-counts :
    (b b' : Bool) (cs cs' : List Connection)
    → Moves b cs b' cs'
    → length cs ≡ one_if b
    → (m : ℕ) × (length cs' ≡ length cs + m)
      × (still_out b ≡ m + still_out b')
      × (length cs' ≡ one_if b')
Moves-counts b b' cs cs' (inl (e, f)) h =
    let same = ap length f in
    (0, omega (arith, same), omega (arith, ap still_out e), omega (arith, same, h, ap one_if e))
Moves-counts b b' cs cs' (inr (e, f, c, g)) h =
    let longer = ap length g in
    let one = length-append cs (c ∷ []) in
    (
      1,
      omega (arith, longer, one),
      omega (arith, ap still_out e, ap still_out f),
      omega (arith, longer, one, h, ap one_if e, ap one_if f),
    )
