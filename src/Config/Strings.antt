-- ===== src/Config/Strings.antt =====
-- The memory that a Client owns: the strings and the array of endpoints that `Client::__construct` allocates, and
-- `ch_client_object_free`, which frees them. A block is named by its number among all that were allocated.
use php_clickhouse.Base.{
  ℕ, zero, suc, ◌+◌, Bool, List, [], ◌∷◌, ◌++◌, Option, none, some, ltb, if◌then◌else◌,
}

-- The allocator of the engine, of which the code uses that each allocation gives a block of its own: how many blocks
-- were allocated, and those that were freed, the last first.
pub record Heap : Type 0 where
  pub allocated : ℕ
  pub freed : List ℕ

-- The pointers of `ch_client_object`; `none` is NULL. `hosts` are those of the endpoints.
pub record Pointers : Type 0 where
  pub host : Option ℕ
  pub database : Option ℕ
  pub user : Option ℕ
  pub password : Option ℕ
  pub endpoints : Option ℕ
  pub hosts : List ℕ

-- An object with its memory.
pub record Memory : Type 0 where
  pub heap : Heap
  pub pointers : Pointers

unfoldable pub efree : ℕ → Heap → Heap
efree block heap = record heap { freed = block ∷ heap.freed }

-- The one more block, whose number is that of those before it.
unfoldable pub emalloc : Heap → Heap
emalloc heap = record heap { allocated = suc heap.allocated }

-- if (obj->host != NULL) efree(obj->host), and so for the others.
unfoldable pub free_pointer : Option ℕ → Heap → Heap
free_pointer none heap = heap
free_pointer (some block) heap = efree block heap

unfoldable pub free_hosts : List ℕ → Heap → Heap
free_hosts [] heap = heap
free_hosts (host ∷ hosts) heap = free_hosts hosts (efree host heap)

unfoldable pub free_endpoints : Option ℕ → List ℕ → Heap → Heap
free_endpoints none hosts heap = heap
free_endpoints (some array) hosts heap = efree array (free_hosts hosts heap)

-- The last part of `ch_client_object_free`.
unfoldable pub free_strings : Memory → Heap
free_strings m =
    let p = m.pointers in
    free_endpoints p.endpoints p.hosts (
      free_pointer p.password
        (free_pointer p.user (free_pointer p.database (free_pointer p.host m.heap))))

-- The four calls of `ch_config_dup`, each of which allocates a string.
unfoldable pub dup_strings : Memory → Memory
dup_strings m =
    let n = m.heap.allocated in
    record {
      heap = emalloc (emalloc (emalloc (emalloc m.heap)));
      pointers = record m.pointers {
        host = some n;
        database = some (n + 1);
        user = some (n + 2);
        password = some (n + 3);
      };
    }

-- ecalloc where there are several hosts: an array of no host yet.
unfoldable pub calloc_endpoints : ℕ → Memory → Memory
calloc_endpoints count m =
    if ltb 1 count
    then record {
      heap = emalloc m.heap;
      pointers = record m.pointers { endpoints = some m.heap.allocated; hosts = [] };
    }
    else m

-- One turn of the loop over 'hosts': `ch_parse_host_port` allocates the host, which takes the place of obj->host or
-- goes to the endpoints.
unfoldable pub add_string : ℕ → Memory → Memory
add_string zero m = record {
  heap = emalloc (free_pointer m.pointers.host m.heap);
  pointers = record m.pointers { host = some m.heap.allocated };
}
add_string (suc index) m = record {
  heap = emalloc m.heap;
  pointers = record m.pointers { hosts = m.pointers.hosts ++ m.heap.allocated ∷ [] };
}

-- The turns from `index` on, of which `n` are left.
unfoldable pub add_strings : ℕ → ℕ → Memory → Memory
add_strings index zero m = m
add_strings index (suc n) m = add_strings (suc index) n (add_string index m)

-- The constructor: `throws` is whether one of the two TypeErrors is thrown, and `count` is the number of 'hosts'.
unfoldable pub construct_strings : Bool → ℕ → Memory → Memory
construct_strings throws count m =
    if throws then dup_strings m else add_strings 0 count (calloc_endpoints count (dup_strings m))

-- An object as it is created.
abbrev pub new_memory : Memory
new_memory = record {
  heap = record { allocated = 0; freed = [] };
  pointers = record {
    host = none;
    database = none;
    user = none;
    password = none;
    endpoints = none;
    hosts = [];
  };
}
