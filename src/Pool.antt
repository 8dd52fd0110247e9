-- ===== src/Pool.antt =====
-- The choice of hosts in `ch_pool_factory` of clickhouse_async.cpp.
-- Endpoint 0 is the primary, and the others are the failover hosts. `php_mt_rand_range` is a
-- parameter of the choice: the number that it draws.
pub mod Rotation
mod Examples
use php_clickhouse.Base.{
  ℕ, zero, suc, ◌+◌, ◌-◌, ◌%◌, ◌^◌, Bytes, codes, Bool, true, false, List, [], ◌∷◌, Option, none,
  some, ltb, ◌==◌, if◌then◌else◌, length, get_or,
}

pub record Endpoint : Type 0 where
  pub host : Bytes
  pub port : ℕ

-- The fields of `ch_client_object` that the factory reads; `conn_seq` is a uint32_t.
pub record ClientObject : Type 0 where
  pub primary : Endpoint
  pub endpoints : List Endpoint
  pub open_strategy : ℕ
  pub conn_seq : ℕ

-- The hosts of `ch_client_config_t`.
pub record Config : Type 0 where
  pub first : Endpoint
  pub failover : List Endpoint

-- (idx == 0) ? primary : endpoints[idx - 1], which is only asked for where it exists.
pub endpoint_at : ClientObject → ℕ → Endpoint
endpoint_at obj zero = obj.primary
endpoint_at obj (suc idx) = get_or obj.endpoints idx obj.primary

unfoldable pub total_of : ClientObject → ℕ
total_of obj = 1 + length obj.endpoints

-- The endpoint that the connection tries first, and the object after it; `drawn` is the answer of
-- php_mt_rand_range(0, total - 1).
pub choose_start : ℕ → ClientObject → ℕ × ClientObject
choose_start drawn obj =
    if ltb 1 (total_of obj)
    then (if obj.open_strategy == 1
        then (obj.conn_seq % total_of obj, record obj { conn_seq = (obj.conn_seq + 1) % 2 ^ 32 })
        else if obj.open_strategy == 2
        then (drawn, obj)
        else (0, obj))
    else (0, obj)

-- for (k = …; k < total; ++k), with `n` rounds left.
pub failover_from : ClientObject → ℕ → ℕ → ℕ → List Endpoint
failover_from obj start k zero = []
failover_from obj start k (suc n) =
    endpoint_at obj ((start + k) % total_of obj) ∷ failover_from obj start (suc k) n

pub config_from : ClientObject → ℕ → Config
config_from obj start = record {
  first = endpoint_at obj start;
  failover = failover_from obj start 1 (total_of obj - 1);
}

-- The config of a new connection, and the object after it.
pub factory : ℕ → ClientObject → Config × ClientObject
factory drawn obj = let (start, obj') = choose_start drawn obj in (config_from obj start, obj')
