-- ===== src/Pool/Examples.antt =====
-- A client of three hosts.
use php_clickhouse.Base.{◌≡◌, refl, codes, [], ◌∷◌, arith}
use php_clickhouse.Pool.{Endpoint, ClientObject, total_of}
use php_clickhouse.Pool.Rotation.{hosts, first_hosts, round_robin-hosts}

abbrev host_a : Endpoint
host_a = record { host = codes "a"; port = 9000 }

abbrev host_b : Endpoint
host_b = record { host = codes "b"; port = 9001 }

abbrev host_c : Endpoint
host_c = record { host = codes "c"; port = 9002 }

-- The second connection under round robin.
abbrev round_robin : ClientObject
round_robin = record {
  primary = host_a;
  endpoints = host_b ∷ host_c ∷ [];
  open_strategy = 1;
  conn_seq = 1;
}

round_robin-hosts_example : first_hosts 3 round_robin ≡ host_b ∷ host_c ∷ host_a ∷ []
unfolding total_of hosts
round_robin-hosts_example = round_robin-hosts round_robin refl (omega arith) (omega arith)
