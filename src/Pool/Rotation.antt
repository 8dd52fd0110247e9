-- ===== src/Pool/Rotation.antt =====
-- Over which hosts, and in which order, a new connection goes.
use php_clickhouse.Base.{
  ℕ, zero, suc, ◌+◌, ◌-◌, ◌%◌, ◌^◌, ◌≤◌, ◌<◌, ◌≡◌, ◌⊎◌, refl, ap, sym, subst, ◌∙◌, List, [], ◌∷◌,
  ◌++◌, arith, length, take, drop, get_or,
}
use native.Mathlib.Nat.{mod-add-mod, mod-eq_of_lt}
use php_clickhouse.Pool.{
  Endpoint, ClientObject, Config, endpoint_at, total_of, choose_start, failover_from, config_from,
  factory,
}

-- All hosts of a client, the primary first.
unfoldable pub hosts : ClientObject → List Endpoint
hosts obj = obj.primary ∷ obj.endpoints

-- The hosts that a connection tries, in order.
unfoldable pub tried : Config → List Endpoint
tried cfg = cfg.first ∷ cfg.failover

-- `n` of the client's hosts from index `i` on.
hosts_from : ClientObject → ℕ → ℕ → List Endpoint
hosts_from obj i zero = []
hosts_from obj i (suc n) = endpoint_at obj i ∷ hosts_from obj (suc i) n

mod_past : (a t i : ℕ) → a ≡ t + i → i < t → a % t ≡ i
mod_past a t i e h = grind arith

-- Rounds that stay below the last host, and rounds behind it.
straight :
    (obj : ClientObject) (start k n : ℕ)
    → start + k + n ≤ total_of obj
    → failover_from obj start k n ≡ hosts_from obj (start + k) n
unfolding failover_from hosts_from
straight obj start k zero h = refl
straight obj start k (suc n) h =
    let e : (start + k) % total_of obj ≡ start + k = mod-eq_of_lt (omega arith) in
    rw e (ground (arith, straight obj start (suc k) n))

wrapped :
    (obj : ClientObject) (start k i n : ℕ)
    → start + k ≡ total_of obj + i
    → i + n ≤ total_of obj
    → failover_from obj start k n ≡ hosts_from obj i n
unfolding failover_from hosts_from
wrapped obj start k i zero e h = refl
wrapped obj start k i (suc n) e h =
    let m : (start + k) % total_of obj ≡ i = mod_past _ _ _ e (omega arith) in
    rw m (
      ap (λ l. endpoint_at obj i ∷ l)
        (wrapped obj start (suc k) (suc i) n (omega arith) (omega arith)))

split_rounds :
    (obj : ClientObject) (start k m n : ℕ)
    → failover_from obj start k (m + n)
      ≡ failover_from obj start k m ++ failover_from obj start (k + m) n
unfolding failover_from
split_rounds obj start k zero n =
    let none : zero + n ≡ n = omega arith in
    let same : k + zero ≡ k = omega arith in rw (none, same)
split_rounds obj start k (suc m) n =
    let more : suc m + n ≡ suc (m + n) = omega arith in
    let moved : suc k + m ≡ k + suc m = omega arith in
    rw (more, failover_from, split_rounds obj start (suc k) m n, moved)

-- `n` elements of a list from index `i` on.
take-drop {ℓ} :
    {A : Type ℓ} (xs : List A) (d : A) (i n : ℕ)
    → i < length xs
    → take (suc n) (drop i xs) ≡ get_or xs i d ∷ take n (drop (suc i) xs)
take-drop [] d i n h = absurd (omega arith)
take-drop (x ∷ xs) d zero n h = refl
take-drop (x ∷ xs) d (suc i) n h = take-drop xs d i n (omega arith)

take_nil {ℓ} : {A : Type ℓ} (n : ℕ) (xs : List A) → xs ≡ [] → take n xs ≡ []
take_nil zero xs e = refl
take_nil (suc n) [] e = refl
take_nil (suc n) (x ∷ xs) e = cc

take_all {ℓ} : {A : Type ℓ} (xs : List A) (i : ℕ) → take (length xs - i) (drop i xs) ≡ drop i xs
take_all [] zero = refl
take_all [] (suc i) = take_nil _ _ refl
take_all (x ∷ xs) zero =
    let all : suc (length xs) - 0 ≡ suc (length xs - 0) = omega arith in rw (all, take_all xs 0)
take_all (x ∷ xs) (suc i) = ap (λ n. take n (drop i xs)) (omega arith) ∙ take_all xs i

endpoint_at-hosts :
    (obj : ClientObject) (i : ℕ) → endpoint_at obj i ≡ get_or (hosts obj) i obj.primary
unfolding endpoint_at hosts
endpoint_at-hosts obj zero = refl
endpoint_at-hosts obj (suc i) = refl

below_total : (obj : ClientObject) (i n : ℕ) → i + suc n ≤ total_of obj → i < length (hosts obj)
unfolding total_of hosts
below_total obj i n h = omega arith

hosts_from-take :
    (obj : ClientObject) (i n : ℕ)
    → i + n ≤ total_of obj
    → hosts_from obj i n ≡ take n (drop i (hosts obj))
unfolding hosts_from
hosts_from-take obj i zero h = refl
hosts_from-take obj i (suc n) h =
    let below : i < length (hosts obj) = below_total obj i n h in
    rw (
      take-drop (hosts obj) obj.primary i n below,
      endpoint_at-hosts obj i,
      hosts_from-take obj (suc i) n (omega arith),
    )

total_of-hosts : (obj : ClientObject) → total_of obj ≡ length (hosts obj)
unfolding total_of hosts
total_of-hosts obj = omega arith

-- A full turn of the rounds, from round 0.
full_turn :
    (obj : ClientObject) (start : ℕ)
    → start < total_of obj
    → failover_from obj start 0 (total_of obj) ≡ drop start (hosts obj) ++ take start (hosts obj)
full_turn obj start h =
    let turn : (total_of obj - start) + start ≡ total_of obj = omega arith in
    let zeroth : start + 0 ≡ start = omega arith in
    let length : length (hosts obj) - start ≡ total_of obj - start =
      ap (λ n. n - start) (sym (total_of-hosts obj)) in
    let first =
      straight obj start 0 (total_of obj - start) (omega arith)
      ∙ hosts_from-take obj (start + 0) (total_of obj - start) (omega arith) in
    let later =
      wrapped obj start (0 + (total_of obj - start)) 0 start (omega arith) (omega arith)
      ∙ hosts_from-take obj 0 start (omega arith) in
    subst (λ n. failover_from obj start 0 n ≡ drop start (hosts obj) ++ take start (hosts obj)) turn
      (rw (
        split_rounds obj start 0 (total_of obj - start) start,
        first,
        later,
        zeroth,
        sym length,
        take_all (hosts obj) start,
      ))

tried-turn :
    (obj : ClientObject) (start : ℕ)
    → start < total_of obj
    → tried (config_from obj start) ≡ failover_from obj start 0 (total_of obj)
unfolding tried config_from failover_from
tried-turn obj start h =
    let total : total_of obj ≡ suc (total_of obj - 1) = omega arith in
    let zeroth : start + 0 ≡ start = omega arith in
    let first : start % total_of obj ≡ start = mod-eq_of_lt h in
    subst
      (λ n.
        endpoint_at obj start ∷ failover_from obj start 1 (total_of obj - 1)
        ≡ failover_from obj start 0 n)
      (sym total) (rw (failover_from, zeroth, first))

choose_start-lt :
    (drawn : ℕ) (obj : ClientObject)
    → drawn < total_of obj
    → (choose_start drawn obj).0 < total_of obj
unfolding choose_start total_of
choose_start-lt drawn obj h = ground arith

in_order :
    (drawn : ℕ) (obj : ClientObject)
    → ((choose_start drawn obj).0 ≡ 0) ⊎ (obj.open_strategy ≡ 1) ⊎ (obj.open_strategy ≡ 2)
unfolding choose_start
in_order drawn obj = ground arith

-- A new connection tries every host of its client exactly once, in their order around from the host
-- that it starts with; and it starts with the primary if the strategy is neither round robin nor
-- random. This needs that the random number is in the range that was asked for.
pub factory-hosts :
    (drawn : ℕ) (obj : ClientObject)
    → drawn < total_of obj
    → (start : ℕ) × (start < total_of obj)
      × (tried (factory drawn obj).0 ≡ drop start (hosts obj) ++ take start (hosts obj))
      × ((start ≡ 0) ⊎ (obj.open_strategy ≡ 1) ⊎ (obj.open_strategy ≡ 2))
unfolding factory
factory-hosts drawn obj h =
    let below = choose_start-lt drawn obj h in
    (
      (choose_start drawn obj).0,
      below,
      tried-turn obj _ below ∙ full_turn obj _ below,
      in_order drawn obj,
    )

-- The hosts that `n` connections start with, opened one after another.
pub first_hosts : ℕ → ClientObject → List Endpoint
first_hosts zero obj = []
first_hosts (suc n) obj = (factory 0 obj).0.first ∷ first_hosts n (factory 0 obj).1

-- The object after one more connection under round robin.
counted : ℕ → ClientObject → ClientObject
counted n obj = record obj { conn_seq = n }

endpoint_at-counted :
    (n : ℕ) (obj : ClientObject) (i : ℕ) → endpoint_at (counted n obj) i ≡ endpoint_at obj i
unfolding endpoint_at counted
endpoint_at-counted n obj zero = refl
endpoint_at-counted n obj (suc i) = refl

round_robin-first :
    (obj : ClientObject) (s : ℕ)
    → obj.open_strategy ≡ 1
    → 1 < total_of obj
    → (factory 0 (counted s obj)).0.first ≡ endpoint_at obj (s % total_of obj)
unfolding factory choose_start config_from total_of counted
round_robin-first obj s e h = ground (arith, endpoint_at-counted s obj (s % total_of obj))

round_robin-counts :
    (obj : ClientObject) (s : ℕ)
    → obj.open_strategy ≡ 1
    → 1 < total_of obj
    → s + 1 < 2 ^ 32
    → (factory 0 (counted s obj)).1 ≡ counted (s + 1) obj
unfolding factory choose_start counted total_of
round_robin-counts obj s e h w =
    let fits : (s + 1) % 2 ^ 32 ≡ s + 1 = omega arith in ground (arith, fits)

round_robin-rounds :
    (obj : ClientObject) (s k n : ℕ)
    → obj.open_strategy ≡ 1
    → 1 < total_of obj
    → s + k + n < 2 ^ 32
    → first_hosts n (counted (s + k) obj) ≡ failover_from obj s k n
unfolding first_hosts failover_from
round_robin-rounds obj s k zero e h w = refl
round_robin-rounds obj s k (suc n) e h w =
    let moved : s + k + 1 ≡ s + suc k = omega arith in
    rw (
      round_robin-first obj (s + k) e h,
      round_robin-counts obj (s + k) e h (omega arith),
      moved,
      round_robin-rounds obj s (suc k) n e h (omega arith),
    )

failover_from-mod :
    (obj : ClientObject) (s k n : ℕ)
    → 0 < total_of obj
    → failover_from obj s k n ≡ failover_from obj (s % total_of obj) k n
unfolding failover_from
failover_from-mod obj s k zero h = refl
failover_from-mod obj s k (suc n) h =
    rw (sym (mod-add-mod s (total_of obj) k), failover_from-mod obj s (suc k) n h)

-- Under round robin, as many connections as the client has hosts start with each host exactly once,
-- in their order around, if the client has more than one host and its counter does not overflow.
pub round_robin-hosts :
    (obj : ClientObject)
    → obj.open_strategy ≡ 1
    → 1 < total_of obj
    → obj.conn_seq + total_of obj < 2 ^ 32
    → first_hosts (total_of obj) obj
      ≡ drop (obj.conn_seq % total_of obj) (hosts obj)
        ++ take (obj.conn_seq % total_of obj) (hosts obj)
unfolding counted
round_robin-hosts obj e h w =
    let zeroth : obj.conn_seq + 0 ≡ obj.conn_seq = omega arith in
    let rounds = round_robin-rounds obj obj.conn_seq 0 (total_of obj) e h (omega arith) in
    subst
      (λ s.
        first_hosts (total_of obj) (counted s obj)
        ≡ failover_from obj obj.conn_seq 0 (total_of obj))
      zeroth rounds
    ∙ failover_from-mod obj obj.conn_seq 0 (total_of obj) (omega arith)
    ∙ full_turn obj (obj.conn_seq % total_of obj) (omega arith)
