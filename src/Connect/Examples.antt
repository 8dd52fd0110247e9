-- ===== src/Connect/Examples.antt =====
-- A client of two hosts, and a server that refuses the password.
use php_clickhouse.Base.{
  ◌≡◌, ◌≢◌, ◌⊎◌, refl, codes, true, false, [], ◌∷◌, ◌++◌, none, some, ◌<◌, ℕ, take, drop, arith,
  format_decimal,
}
use php_clickhouse.Base.Int.{pos}
use php_clickhouse.Errors.{
  Exception, server_exception, throws, PhpException, ce_ch_server_exception,
  ce_ch_connection_exception,
}
use php_clickhouse.Connection.{fresh}
use php_clickhouse.Pool.{total_of, factory}
use php_clickhouse.Pool.Rotation.{hosts}
use php_clickhouse.Config.{ClientConfig}
use php_clickhouse.Connect.{
  ConnectConfig, Connector, options_of, factory_connect, client_connect, connect_config, tls_url,
}
use php_clickhouse.Connect.Failure.{client_connect-cases}
use php_clickhouse.Connect.Hosts.{given, given-hosts}

abbrev two_hosts : ClientConfig
two_hosts = record {
  hosts = record {
    primary = record { host = codes "a"; port = 9000 };
    endpoints = record { host = codes "b"; port = 9440 } ∷ [];
    open_strategy = 1;
    conn_seq = 1;
  };
  database = codes "default";
  user = codes "default";
  password = codes "wrong";
  tls = false;
  tls_verify = true;
  compression = 1;
  pool_max = 10;
}

abbrev config : ConnectConfig
config = connect_config two_hosts (factory 0 two_hosts.hosts).0

abbrev denied : Exception
denied = record { kind = server_exception; what = codes "Authentication failed"; code = pos 516 }

abbrev refusing : Connector
refusing = record { connects = λ opts reach. throws denied; leaves = λ opts. none }

url : tls_url (codes "db") 9440 ≡ codes "ssl://db:9440"
unfolding tls_url format_decimal
url = refl

client_connect-cases_example :
    (((client_connect refusing config none).0 ≡ some fresh)
      × ((client_connect refusing config none).1 ≡ none))
    ⊎ (((client_connect refusing config none).0 ≡ none)
        × ((e : Exception) × (refusing.connects (options_of config) (factory_connect false true)
              ≡ throws e)
            × (x : PhpException) × ((client_connect refusing config none).1 ≡ some x)
            × (x.message ≡ e.what)
            × (((x.cls ≡ ce_ch_server_exception) × (e.kind ≡ server_exception))
                ⊎ ((x.cls ≡ ce_ch_connection_exception) × (e.kind ≢ server_exception)))))
client_connect-cases_example = client_connect-cases refusing config refl

given-hosts_example :
    (start : ℕ) × (start < total_of two_hosts.hosts)
    × (given (options_of config)
        ≡ drop start (hosts two_hosts.hosts) ++ take start (hosts two_hosts.hosts))
    × ((start ≡ 0) ⊎ (two_hosts.hosts.open_strategy ≡ 1) ⊎ (two_hosts.hosts.open_strategy ≡ 2))
unfolding hosts total_of
given-hosts_example = given-hosts two_hosts 0 (omega arith) (ground arith, (ground arith, tt))
