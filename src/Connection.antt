-- ===== src/Connection.antt =====
-- The connection wrapper `ch_client` of ch_client.cpp, and the callback by which the pool asks whether
-- it may be used again, of clickhouse_async.cpp. The client library's `Client` inside the wrapper is
-- modelled where it is called.
pub mod Moves
use php_clickhouse.Base.{Bool, true, false, not, if◌then◌else◌, Option, none, some}

pub record Connection : Type 0 where
  pub broken : Bool

-- As `ch_client_connect` leaves it.
abbrev pub fresh : Connection
fresh = record { broken = false }

unfoldable pub client_is_broken : Option Connection → Bool
client_is_broken none = false
client_is_broken (some conn) = conn.broken

-- `true` lets the pool keep the connection, `false` makes it destroy the connection.
unfoldable pub before_release : Connection → Bool
unfolding client_is_broken
before_release conn = not (client_is_broken (some conn))

-- The wrapper when its result or batch lets go of it: `if (broken) conn->broken = true`.
unfoldable pub mark_broken : Bool → Connection → Connection
mark_broken b conn = if b then record conn { broken = true } else conn
