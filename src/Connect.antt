-- ===== src/Connect.antt =====
-- `ch_client_connect` and `ch_map_compression` of ch_client.cpp, the config that `ch_pool_factory` of
-- clickhouse_async.cpp fills for it, and the choice of the socket and `TlsSocket` of
-- ch_transport.cpp. The client library's `Client` and the engine's `php_stream_xport_create` are parameters: what
-- they answer to the options that the code makes.
mod Failure
mod Hosts
mod Examples
use php_clickhouse.Base.{
  ℕ, ◌+◌, Bytes, codes, Bool, true, false, List, [], ◌∷◌, ◌++◌, map, Option, none, some, ◌==◌,
  if◌then◌else◌, format_decimal,
}
use php_clickhouse.Base.Int.{ℤ, pos, negsuc}
use php_clickhouse.Errors.{
  Exception, connection_error, Outcome, returns, throws, PhpException, connect_failed,
  pending_after,
}
use php_clickhouse.Connection.{Connection, fresh}
use php_clickhouse.Pool.{Endpoint, Config, factory}
use php_clickhouse.Config.{ClientConfig}
use php_clickhouse.Transport.{connection_failure}

pub data CompressionMethod : Type 0 where
  lz4 zstd no_compression : CompressionMethod

pub map_compression : ℤ → CompressionMethod
map_compression (pos n) = if n == 1 then lz4 else if n == 2 then zstd else no_compression
map_compression (negsuc n) = no_compression

-- `ch_client_config_t`; `none` is a null pointer, and a port is a uint16_t.
pub record ConnectConfig : Type 0 where
  pub host : Option Bytes
  pub port : ℕ
  pub database : Option Bytes
  pub user : Option Bytes
  pub password : Option Bytes
  pub compression : ℤ
  pub tls : Bool
  pub tls_verify : Bool
  pub endpoints : List Endpoint

-- What the code sets of the library's `ClientOptions`; `none` for endpoints that are not set.
pub record Options : Type 0 where
  pub host : Bytes
  pub port : ℕ
  pub default_database : Bytes
  pub user : Bytes
  pub password : Bytes
  pub compression : CompressionMethod
  pub endpoints : Option (List Endpoint)

-- The config that `ch_pool_factory` fills: the hosts that it chose, and the rest from the Client.
pub connect_config : ClientConfig → Config → ConnectConfig
connect_config client chosen = record {
  host = some chosen.first.host;
  port = chosen.first.port;
  database = some client.database;
  user = some client.user;
  password = some client.password;
  compression = pos client.compression;
  tls = client.tls;
  tls_verify = client.tls_verify;
  endpoints = chosen.failover;
}

or_default : Option Bytes → Bytes → Bytes
or_default none d = d
or_default (some s) d = s

set_endpoints : List Endpoint → Option (List Endpoint)
set_endpoints [] = none
set_endpoints (e ∷ es) = some (e ∷ es)

pub options_of : ConnectConfig → Options
unfolding or_default set_endpoints
options_of cfg = record {
  host = or_default cfg.host (codes "127.0.0.1");
  port = if cfg.port == 0 then 9000 else cfg.port;
  default_database = or_default cfg.database (codes "default");
  user = or_default cfg.user (codes "default");
  password = or_default cfg.password [];
  compression = map_compression cfg.compression;
  endpoints = set_endpoints cfg.endpoints;
}

-- `ch_make_async_socket_factory`: how the library reaches an endpoint.
pub data Socket : Type 0 where
  async_socket : Endpoint → Socket
  tls_socket : Bytes → Bool → Socket

-- The URL that `TlsSocket` connects to.
pub tls_url : Bytes → ℕ → Bytes
tls_url host port = codes "ssl://" ++ (host ++ (codes ":" ++ format_decimal port))

-- `AsyncSocketFactory::connect`, which the library calls with an endpoint.
pub factory_connect : Bool → Bool → Endpoint → Socket
factory_connect true verify e = tls_socket (tls_url e.host e.port) verify
factory_connect false verify e = async_socket e

-- The end of the constructor of `TlsSocket`: whether there is a stream, and the error text of the engine.
tls_error : Option Bytes → Bytes
tls_error none = codes "tls connect failed"
tls_error (some s) = s

pub tls_connected : {Stream : Type 0} → Option Stream → Option Bytes → Outcome Stream
unfolding tls_error
tls_connected (some stream) errstr = returns stream
tls_connected none errstr = throws (record {
  kind = connection_error;
  what = codes "clickhouse: " ++ tls_error errstr;
  code = pos 0;
})

-- The constructor of the library's `Client` with the options and the factory: it returns or throws, and may leave a
-- PHP exception pending.
pub record Connector : Type 0 where
  pub connects : Options → (Endpoint → Socket) → Outcome (Unit {0})
  pub leaves : Options → Option PhpException

-- The wrapper or none, and the pending exception.
pub connected : Outcome (Unit {0}) → Option PhpException → Option Connection × Option PhpException
connected (returns _) p = (some fresh, p)
connected (throws e) p = (none, connect_failed e p)

pub client_connect :
    Connector → ConnectConfig → Option PhpException → Option Connection × Option PhpException
client_connect lib cfg p =
    let opts = options_of cfg in
    connected (lib.connects opts (factory_connect cfg.tls cfg.tls_verify))
      (pending_after p (lib.leaves opts))

-- ch_pool_factory: the connection or none, the pending exception, and the Client after it. `drawn` is the random number.
pub open_connection :
    Connector
    → ℕ
    → ClientConfig
    → Option PhpException
    → Option Connection × Option PhpException × ClientConfig
open_connection lib drawn client p =
    let (chosen, hosts) = factory drawn client.hosts in
    let (conn, p') = client_connect lib (connect_config client chosen) p in
    (conn, p', record client { hosts = hosts })
