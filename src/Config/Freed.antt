-- ===== src/Config/Freed.antt =====
-- What a Client that was constructed owns, and what is left when it is freed.
use php_clickhouse.Base.{
  ℕ, zero, suc, ◌+◌, ◌≡◌, ◌∙◌, refl, sym, Bool, true, false, List, [], ◌∷◌, ◌++◌, Option, none,
  some, ltb, ◌==◌, if◌then◌else◌, arith, ◌≤◌, inl, inr, Bool-cases,
}
use php_clickhouse.Config.Strings.{
  Heap, Pointers, Memory, efree, emalloc, free_pointer, free_hosts, free_endpoints, free_strings,
  dup_strings, calloc_endpoints, add_string, add_strings, construct_strings, new_memory,
}

abbrev pub at_block : ℕ → ℕ → ℕ
at_block i block = if block == i then 1 else 0

-- How often block `i` is in a list.
unfoldable pub times : ℕ → List ℕ → ℕ
times i [] = 0
times i (block ∷ blocks) = at_block i block + times i blocks

times-++ : (i : ℕ) (xs ys : List ℕ) → times i (xs ++ ys) ≡ times i xs + times i ys
unfolding times
times-++ i [] ys = omega arith
times-++ i (x ∷ xs) ys = ground (arith, times-++ i xs ys)

abbrev at_pointer : ℕ → Option ℕ → ℕ
at_pointer i none = 0
at_pointer i (some block) = at_block i block

-- How often an object points to block `i`; to the hosts of its endpoints it does through their array.
unfoldable held : ℕ → Pointers → ℕ
held i p =
    at_pointer i p.host
    + at_pointer i p.database
    + at_pointer i p.user
    + at_pointer i p.password
    + at_pointer i p.endpoints
    + times i p.hosts

-- Each block that was allocated was freed once or is pointed to once, and the hosts have an array.
record Owns (m : Memory) : Type 0 where
  each_once :
      (i : ℕ) → times i m.heap.freed + held i m.pointers ≡ (if ltb i m.heap.allocated then 1 else 0)
  has_array : (m.pointers.endpoints ≡ none) → m.pointers.hosts ≡ []

dup_strings-Owns : Owns (dup_strings new_memory)
unfolding dup_strings times held emalloc
dup_strings-Owns = record { each_once = λ i. ground arith; has_array = λ e. refl }

calloc_endpoints-Owns :
    (count : ℕ) (m : Memory)
    → Owns m
    → m.pointers.endpoints ≡ none
    → Owns (calloc_endpoints count m)
      × ((calloc_endpoints count m).pointers.endpoints ≡ none → count ≤ 1)
unfolding calloc_endpoints held emalloc times
calloc_endpoints-Owns count m o e = elim (Bool-cases (ltb 1 count)) [
  | inl several ↦ rw several (
    record {
      each_once = λ i. ground (arith, o.each_once i, o.has_array e, e);
      has_array = λ h. refl;
    },
    λ h. absurd (cc h),
  )
  | inr one ↦ rw one (o, λ h. ground arith)
]

add_string-Owns :
    (index : ℕ) (m : Memory)
    → Owns m
    → (m.pointers.endpoints ≡ none → index ≡ 0)
    → Owns (add_string index m) × ((add_string index m).pointers.endpoints ≡ m.pointers.endpoints)
unfolding add_string held emalloc efree free_pointer times
add_string-Owns zero m o first = by_host m.pointers.host refl
  where
    by_host :
        (host : Option ℕ)
        → m.pointers.host ≡ host
        → Owns (add_string zero m) × ((add_string zero m).pointers.endpoints ≡ m.pointers.endpoints)
    by_host none e = (
      record { each_once = λ i. ground (arith, o.each_once i, e); has_array = o.has_array },
      refl,
    )
    by_host (some h) e = (
      record { each_once = λ i. ground (arith, o.each_once i, e); has_array = o.has_array },
      refl,
    )
add_string-Owns (suc index) m o first = (
  record {
    each_once =
        λ i. ground (arith, o.each_once i, times-++ i m.pointers.hosts (m.heap.allocated ∷ []));
    has_array = λ e. absurd (omega (arith, first e));
  },
  refl,
)

add_strings-Owns :
    (index n : ℕ) (m : Memory)
    → Owns m
    → (m.pointers.endpoints ≡ none → index + n ≤ 1)
    → Owns (add_strings index n m)
unfolding add_strings
add_strings-Owns index zero m o few = o
add_strings-Owns index (suc n) m o few =
    let (o', same) = add_string-Owns index m o (λ e. omega (arith, few e)) in
    add_strings-Owns (suc index) n (add_string index m) o' (λ e. omega (arith, few (sym same ∙ e)))

construct_strings-Owns :
    (throws : Bool) (count : ℕ) → Owns (construct_strings throws count new_memory)
unfolding construct_strings dup_strings
construct_strings-Owns true count = dup_strings-Owns
construct_strings-Owns false count =
    let (o, few) = calloc_endpoints-Owns count (dup_strings new_memory) dup_strings-Owns refl in
    add_strings-Owns 0 count _ o (λ e. omega (arith, few e))

free_pointer-times :
    (p : Option ℕ) (heap : Heap) (i : ℕ)
    → (times i (free_pointer p heap).freed ≡ at_pointer i p + times i heap.freed)
      × ((free_pointer p heap).allocated ≡ heap.allocated)
unfolding free_pointer efree times
free_pointer-times none heap i = (omega arith, refl)
free_pointer-times (some block) heap i = (refl, refl)

free_hosts-times :
    (hosts : List ℕ) (heap : Heap) (i : ℕ)
    → (times i (free_hosts hosts heap).freed ≡ times i hosts + times i heap.freed)
      × ((free_hosts hosts heap).allocated ≡ heap.allocated)
unfolding free_hosts efree times
free_hosts-times [] heap i = (omega arith, refl)
free_hosts-times (host ∷ hosts) heap i =
    let (rest, same) = free_hosts-times hosts (efree host heap) i in (omega (arith, rest), same)

free_endpoints-times :
    (array : Option ℕ) (hosts : List ℕ) (heap : Heap) (i : ℕ)
    → (array ≡ none → hosts ≡ [])
    → (times i (free_endpoints array hosts heap).freed
        ≡ at_pointer i array + times i hosts + times i heap.freed)
      × ((free_endpoints array hosts heap).allocated ≡ heap.allocated)
unfolding free_endpoints efree times
free_endpoints-times none hosts heap i has = (rw (has refl) (omega arith), refl)
free_endpoints-times (some array) hosts heap i has =
    let (rest, same) = free_hosts-times hosts heap i in (omega (arith, rest), same)

free_strings-times :
    (m : Memory) (i : ℕ)
    → Owns m
    → times i (free_strings m).freed ≡ (if ltb i (free_strings m).allocated then 1 else 0)
unfolding free_strings held
free_strings-times m i o =
    let p = m.pointers in
    let a = m.heap in
    let b = free_pointer p.host a in
    let c = free_pointer p.database b in
    let d = free_pointer p.user c in
    let e = free_pointer p.password d in
    let (n₁, s₁) = free_pointer-times p.host a i in
    let (n₂, s₂) = free_pointer-times p.database b i in
    let (n₃, s₃) = free_pointer-times p.user c i in
    let (n₄, s₄) = free_pointer-times p.password d i in
    let (n₅, s₅) = free_endpoints-times p.endpoints p.hosts e i o.has_array in
    rw (s₅ ∙ s₄ ∙ s₃ ∙ s₂ ∙ s₁) (omega (arith, n₁, n₂, n₃, n₄, n₅, o.each_once i))

-- A Client that is constructed once and then freed: every block that the constructor allocated is freed exactly once
-- and nothing else is, whatever hosts it was given and also where the constructor throws.
pub free_strings-construct_strings :
    (throws : Bool) (count i : ℕ)
    → let heap = free_strings (construct_strings throws count new_memory) in
      times i heap.freed ≡ (if ltb i heap.allocated then 1 else 0)
free_strings-construct_strings throws count i =
    free_strings-times (construct_strings throws count new_memory) i
      (construct_strings-Owns throws count)
