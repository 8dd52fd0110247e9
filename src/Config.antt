-- ===== src/Config.antt =====
-- `Client::__construct` of clickhouse_async.cpp: the config array and the fields that it sets, and
-- `ch_config_dup` and `ch_parse_host_port`. A key of the array comes as the value that the code asks
-- for it, `zend_is_true` or `zval_get_long` of what the array has; `none` stands for a key that is missing,
-- and for a string key that has no string.
pub mod Hosts
pub mod Strings
pub mod Freed
mod Examples
use php_clickhouse.Base.{
  ℕ, zero, suc, ◌+◌, ◌-◌, ◌*◌, ◌%◌, ◌^◌, ◌≤◌, Bytes, codes, Bool, true, false, not, ◌&&◌, ◌||◌,
  List, [], ◌∷◌, ◌++◌, Option, none, some, ltb, leb, ◌==◌, if◌then◌else◌, is_digit, bytes_eq,
  length, min,
}
use php_clickhouse.Base.Int.{to_unsigned, ℤ, pos, negsuc, sub_ℕ, pos_part, is_negative, ◌%ℤ◌, ◌+ℤ◌}
use php_clickhouse.Pool.{Endpoint, ClientObject}

infixl 5 ◌>>=◌
abbrev ◌>>=◌ {ℓ κ} : {A : Type ℓ} {B : Type κ} → Option A → (A → Option B) → Option B
some a >>= f = f a
none >>= f = none

-- The part before the last colon and the part behind it: the loop looks for it from the end.
pub split_last_colon : Bytes → Option (Bytes × Bytes)
split_last_colon [] = none
split_last_colon (c ∷ s) = elim (split_last_colon s) [
  | some (h, p) ↦ some (c ∷ h, p)
  | none ↦ if c == b':' then some ([], s) else none
]

-- `strtol` of the standard library in base 10: white space, a sign, and digits up to the first byte that
-- is none; what does not fit into 64 bits is cut to the nearest number that does.
pub is_space : ℕ → Bool
is_space c = (c == 32) || (leb 9 c && leb c 13)

pub skip_space : Bytes → Bytes
skip_space [] = []
skip_space (c ∷ s) = let rest = skip_space s in if is_space c then rest else c ∷ s

pub leading_digits : ℕ → Bytes → ℕ
leading_digits n [] = n
leading_digits n (c ∷ s) =
    let rest = leading_digits (n * 10 + (c - b'0')) s in if is_digit c then rest else n

pub signed : Bytes → ℤ
signed [] = pos 0
signed (c ∷ s) =
    if c == b'-'
    then sub_ℕ 0 (min (leading_digits 0 s) (2 ^ 63))
    else if c == b'+'
    then pos (min (leading_digits 0 s) (2 ^ 63 - 1))
    else pos (min (leading_digits 0 (c ∷ s)) (2 ^ 63 - 1))

pub strtol : Bytes → ℤ
strtol s = signed (skip_space s)

-- (parsed > 0 && parsed <= 65535) ? parsed : default_port
pub port_of : ℤ → ℕ → ℕ
port_of parsed default_port =
    if ltb 0 (pos_part parsed) && leb (pos_part parsed) 65535 then pos_part parsed else default_port

pub host_and_port : Option (Bytes × Bytes) → Bytes → ℕ → Endpoint
host_and_port (some (h, p)) str default_port = record {
  host = h;
  port = port_of (strtol p) default_port;
}
host_and_port none str default_port = record { host = str; port = default_port }

pub parse_host_port : Bytes → ℕ → Endpoint
parse_host_port str default_port = host_and_port (split_last_colon str) str default_port

-- A key that must be an enum: missing, a case of that enum with its value, or anything else.
pub data EnumKey : Type 0 where
  missing : EnumKey
  enum_case : Bytes → EnumKey
  wrong_type : EnumKey

pub record ConfigArray : Type 0 where
  pub host : Option Bytes
  pub database : Option Bytes
  pub user : Option Bytes
  pub password : Option Bytes
  pub tls : Option Bool
  pub tls_verify : Option Bool
  pub port : Option ℤ
  pub compression : EnumKey
  pub open_strategy : EnumKey
  pub pool_max : Option ℤ
  pub hosts : Option (List Bytes)

-- The fields of `ch_client_object` after the constructor.
pub record ClientConfig : Type 0 where
  pub hosts : ClientObject
  pub database : Bytes
  pub user : Bytes
  pub password : Bytes
  pub tls : Bool
  pub tls_verify : Bool
  pub compression : ℕ
  pub pool_max : ℕ

pub or_else {ℓ} : {A : Type ℓ} → A → Option A → A
or_else fallback none = fallback
or_else fallback (some a) = a

pub port_from : Bool → Option ℤ → ℕ
port_from tls (some port) = to_unsigned 16 port
port_from tls none = if tls then 9440 else 9000

pub compression_from : EnumKey → Option ℕ
compression_from missing = some 1
compression_from (enum_case method) =
    some (
      if bytes_eq method (codes "none") then 0 else if bytes_eq method (codes "zstd") then 2 else 1)
compression_from wrong_type = none

pub open_strategy_from : EnumKey → Option ℕ
open_strategy_from missing = some 0
open_strategy_from (enum_case mode) = some (
    if bytes_eq mode (codes "round_robin")
    then 1
    else if bytes_eq mode (codes "random")
    then 2
    else 0)
open_strategy_from wrong_type = none

pub pool_max_from : Option ℤ → ℕ
pool_max_from none = 10
pool_max_from (some m) = if ltb 0 (pos_part m) then to_unsigned 32 m else 10

-- The body of the loop over 'hosts': the default port is the object's port at that moment.
pub add_host : ℕ → Bytes → ClientObject → ClientObject
add_host zero str obj = record obj { primary = parse_host_port str obj.primary.port }
add_host (suc index) str obj = record obj {
  endpoints = obj.endpoints ++ parse_host_port str obj.primary.port ∷ [];
}

pub add_hosts : ℕ → List Bytes → ClientObject → ClientObject
add_hosts index [] obj = obj
add_hosts index (str ∷ strs) obj = add_hosts (suc index) strs (add_host index str obj)

-- `none` where a TypeError is thrown.
pub construct : ConfigArray → Option ClientConfig
construct config = do
  compression ← compression_from config.compression
  strategy ← open_strategy_from config.open_strategy
  some (record {
    hosts = add_hosts 0 (or_else [] config.hosts) (record {
      primary = record {
        host = or_else (codes "127.0.0.1") config.host;
        port = port_from (or_else false config.tls) config.port;
      };
      endpoints = [];
      open_strategy = strategy;
      conn_seq = 0;
    });
    database = or_else (codes "default") config.database;
    user = or_else (codes "default") config.user;
    password = or_else [] config.password;
    tls = or_else false config.tls;
    tls_verify = or_else true config.tls_verify;
    compression = compression;
    pool_max = pool_max_from config.pool_max;
  })
