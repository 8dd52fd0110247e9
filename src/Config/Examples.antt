-- ===== src/Config/Examples.antt =====
-- Entries of 'hosts' that are written out.
use php_clickhouse.Base.{◌≡◌, refl, codes, false, [], ◌∷◌}
use php_clickhouse.Pool.{ClientObject}
use php_clickhouse.Config.{
  parse_host_port, add_hosts, split_last_colon, host_and_port, port_of, strtol, skip_space,
  is_space, signed, leading_digits,
}
use php_clickhouse.Config.Strings.{
  construct_strings, dup_strings, calloc_endpoints, add_strings, add_string, free_strings,
  free_pointer, free_hosts, free_endpoints, efree, emalloc, new_memory,
}
use php_clickhouse.Config.Freed.{times, free_strings-construct_strings}
use php_clickhouse.Config.Hosts.{add_hosts-ports}

-- A number that is no port.
too_large : parse_host_port (codes "db:65536") 9000 ≡ record { host = codes "db"; port = 9000 }
unfolding parse_host_port host_and_port split_last_colon port_of strtol skip_space is_space signed
    leading_digits
too_large = refl

abbrev configured : ClientObject
configured = record {
  primary = record { host = codes "127.0.0.1"; port = 9000 };
  endpoints = [];
  open_strategy = 0;
  conn_seq = 0;
}

-- The second entry has no port, and gets that of the first instead of 9000.
add_hosts-ports_example :
    ((add_hosts 0 (codes "a:9440" ∷ codes "b" ∷ []) configured).primary
      ≡ record { host = codes "a"; port = 9440 })
    × ((add_hosts 0 (codes "a:9440" ∷ codes "b" ∷ []) configured).endpoints
        ≡ record { host = codes "b"; port = 9440 } ∷ [])
unfolding parse_host_port host_and_port split_last_colon port_of strtol skip_space is_space signed
    leading_digits
add_hosts-ports_example = add_hosts-ports (codes "a:9440") (codes "b" ∷ []) configured refl

-- Block 0 is the default host, which the first of three hosts replaces.
free_strings-construct_strings_example :
    times 0 (free_strings (construct_strings false 3 new_memory)).freed ≡ 1
unfolding construct_strings dup_strings calloc_endpoints add_strings add_string free_strings
    free_pointer free_hosts free_endpoints efree emalloc
free_strings-construct_strings_example = free_strings-construct_strings false 3 0

-- A second call of the constructor loses the strings of the first.
constructed_twice :
    times 0 (free_strings (construct_strings false 0 (construct_strings false 0 new_memory))).freed
    ≡ 0
unfolding construct_strings dup_strings calloc_endpoints add_strings add_string free_strings
    free_pointer free_hosts free_endpoints efree emalloc times
constructed_twice = refl
