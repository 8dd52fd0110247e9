-- ===== src/Lifetime/Events.antt =====
-- What the events of a Client say: how many connections were taken and given back, and that each came when the pool
-- could still serve it; and what the operations of Lifetime.antt do to a Client that is alive.
use php_clickhouse.Base.{
  ℕ, zero, suc, ◌+◌, ◌<◌, ◌≡◌, ◌⊎◌, inl, inr, refl, subst, Bool, true, false, Bool-cases, List, [],
  ◌∷◌, ◌++◌, Option, none, some, ◌==◌, length, length-drop, drop, map, arith,
}
use php_clickhouse.Connection.{Connection}
use php_clickhouse.Connection.Moves.{one_more}
use php_clickhouse.Lifetime.{
  Event, acquired, gave_back, pool_closed, pool_released, wrapper_released, Client, new_client,
  release_wrapper, close_pool, client_object_free, obj_release, pool_ensure, acquire, pool_acquire,
  make_wrapper, get_pool, give_back, keep,
}

abbrev pub takes : List Event → ℕ
takes [] = 0
takes (acquired ∷ es) = suc (takes es)
takes (_ ∷ es) = takes es

abbrev pub gives : List Event → ℕ
gives [] = 0
gives (gave_back _ ∷ es) = suc (gives es)
gives (_ ∷ es) = gives es

abbrev pub closings : List Event → ℕ
closings [] = 0
closings (pool_closed ∷ es) = suc (closings es)
closings (_ ∷ es) = closings es

-- Connections are taken and given back, and the wrapper is released, only before the pool is closed; a connection is
-- given back only if one is out; the pool is closed once, when none is out; and its event is released after that.
abbrev pub Orderly : List Event → Type 0
Orderly [] = Unit
Orderly (acquired ∷ es) = (closings es ≡ 0) × Orderly es
Orderly (gave_back _ ∷ es) = (closings es ≡ 0) × (gives es < takes es) × Orderly es
Orderly (pool_closed ∷ es) = (closings es ≡ 0) × (takes es ≡ gives es) × Orderly es
Orderly (pool_released ∷ es) = (closings es ≡ 1) × Orderly es
Orderly (wrapper_released ∷ es) = (closings es ≡ 0) × Orderly es

-- A Client with `k` references, of whose connections `n` are out.
pub record Alive (k n : ℕ) (c : Client) : Type 0 where
  pub counted : c.refs ≡ k
  pub out : takes c.events ≡ gives c.events + n
  pub orderly : Orderly c.events
  pub not_closed : closings c.events ≡ 0

-- A Client that is freed: every connection came back, and nothing is left of the pool and its wrapper.
pub record Freed (c : Client) : Type 0 where
  pub no_refs : c.refs ≡ 0
  pub all_back : takes c.events ≡ gives c.events
  pub orderly : Orderly c.events
  pub no_pool : c.has_pool ≡ false
  pub no_wrapper : c.has_wrapper ≡ false

abbrev pub Serves : ℕ → ℕ → Client → Type 0
Serves k n c = ((0 < k) × Alive k n c) ⊎ ((k ≡ 0) × (n ≡ 0) × Freed c)

pub new_client-Alive : Alive 1 0 new_client
new_client-Alive = record { counted = refl; out = refl; orderly = tt; not_closed = refl }

pub recount : {k m n : ℕ} (c : Client) → m ≡ n → Alive k m c → Alive k n c
recount {k} c e h = subst (λ i. Alive k i c) e h

pub recount_refs : {j k n : ℕ} (c : Client) → j ≡ k → Alive j n c → Alive k n c
recount_refs {n = n} c e h = subst (λ i. Alive i n c) e h

pub same_Serves : {j k m n : ℕ} (c : Client) → j ≡ k → m ≡ n → Serves j m c → Serves k n c
same_Serves {k = k} {m = m} c e f h = subst (λ i. Serves k i c) f (subst (λ i. Serves i m c) e h)

pub keep-Alive : (k n : ℕ) (c : Client) → Alive k n c → Alive (suc k) n (keep c)
unfolding keep
keep-Alive k n c h = record {
  counted = omega (arith, h.counted);
  out = h.out;
  orderly = h.orderly;
  not_closed = h.not_closed;
}

pool_ensure-Alive :
    (made : Bool) (k n : ℕ) (c : Client) → Alive k n c → Alive k n (pool_ensure made c).0
unfolding pool_ensure
pool_ensure-Alive made k n c h = ground (arith, h.counted, h.out, h.orderly, h.not_closed)

acquire-Alive :
    (answer : Option Connection) (k n : ℕ) (c : Client)
    → Alive k n c
    → Alive k (one_more (acquire answer c).1 n) (acquire answer c).0
unfolding acquire
acquire-Alive none k n c h = h
acquire-Alive (some conn) k n c h = record {
  counted = h.counted;
  out = omega (arith, h.out);
  orderly = (h.not_closed, h.orderly);
  not_closed = h.not_closed;
}

pub pool_acquire-Alive :
    (made : Bool) (answer : Option Connection) (k n : ℕ) (c : Client)
    → Alive k n c
    → Alive k (one_more (pool_acquire made answer c).1 n) (pool_acquire made answer c).0
unfolding pool_acquire
pool_acquire-Alive made answer k n c h = elim (Bool-cases (pool_ensure made c).1) [
  | inl there ↦ rw there (acquire-Alive answer k n _ (pool_ensure-Alive made k n c h))
  | inr absent ↦ rw absent (pool_ensure-Alive made k n c h)
]

make_wrapper-Alive :
    (wrapped : Bool) (k n : ℕ) (c : Client) → Alive k n c → Alive k n (make_wrapper wrapped c).0
unfolding make_wrapper
make_wrapper-Alive wrapped k n c h = ground (arith, h.counted, h.out, h.orderly, h.not_closed)

pub get_pool-Alive :
    (made wrapped : Bool) (k n : ℕ) (c : Client)
    → Alive k n c
    → Alive k n (get_pool made wrapped c).0
unfolding get_pool
get_pool-Alive made wrapped k n c h = elim (Bool-cases (pool_ensure made c).1) [
  | inl there ↦ rw there (make_wrapper-Alive wrapped k n _ (pool_ensure-Alive made k n c h))
  | inr absent ↦ rw absent (pool_ensure-Alive made k n c h)
]

gave-Alive :
    (cs : List Connection) (k n : ℕ) (c : Client)
    → Alive k (length cs + n) c
    → Alive k n (record c { events = map gave_back cs ++ c.events })
gave-Alive [] k n c h = recount c (omega arith) h
gave-Alive (x ∷ cs) k n c h =
    let rest = gave-Alive cs k (suc n) c (recount c (omega arith) h) in
    record {
      counted = rest.counted;
      out = omega (arith, rest.out);
      orderly = (rest.not_closed, omega (arith, rest.out), rest.orderly);
      not_closed = rest.not_closed;
    }

pub give_back-Alive :
    (before after : List Connection) (k m n : ℕ) (c : Client)
    → length after ≡ length before + m
    → Alive k (m + n) c
    → Alive k n (give_back before after c)
unfolding give_back
give_back-Alive before after k m n c e h =
    gave-Alive (drop (length before) after) k n c
      (recount c (omega (arith, e, length-drop (length before) after)) h)

-- The last reference frees the Client.
client_object_free-Freed : (c : Client) → Alive 0 0 c → Freed (client_object_free c)
unfolding client_object_free close_pool release_wrapper
client_object_free-Freed c h = record {
  no_refs = ground (arith, h.counted);
  all_back = ground (arith, h.out);
  orderly = ground (arith, h.out, h.orderly, h.not_closed);
  no_pool = ground arith;
  no_wrapper = ground arith;
}

pub obj_release-Serves :
    (k n : ℕ) (c : Client) → Alive (suc k) n c → (k ≡ 0 → n ≡ 0) → Serves k n (obj_release c)
unfolding obj_release
obj_release-Serves zero n c h e =
    let one : (c.refs == 1) ≡ true = ground (arith, h.counted) in
    rw one (
      inr (
        refl,
        e refl,
        client_object_free-Freed (record c { refs = 0 })
            (record {
              counted = refl;
              out = omega (arith, h.out, e refl);
              orderly = h.orderly;
              not_closed = h.not_closed;
            }),
      ))
obj_release-Serves (suc k) n c h e =
    let more : (c.refs == 1) ≡ false = ground (arith, h.counted) in
    rw more (
      inl (
        omega arith,
        record {
          counted = omega (arith, h.counted);
          out = h.out;
          orderly = h.orderly;
          not_closed = h.not_closed;
        },
      ))
