-- ===== src/Connect/Hosts.antt =====
-- The hosts that the client library is given for a new connection.
use php_clickhouse.Base.{
  ℕ, ◌<◌, ◌≡◌, ◌≢◌, ◌⊎◌, ◌∙◌, refl, sym, subst, List, [], ◌∷◌, ◌++◌, Option, none, some, All,
  All-append, All-take, All-drop, take, drop, arith, ◌==◌, false,
}
use php_clickhouse.Pool.{Endpoint, Config, total_of, factory}
use php_clickhouse.Pool.Rotation.{hosts, tried, factory-hosts}
use php_clickhouse.Config.{ClientConfig}
use php_clickhouse.Connect.{Options, options_of, connect_config, or_default, set_endpoints}

abbrev pub endpoints_of : Option (List Endpoint) → List Endpoint
endpoints_of none = []
endpoints_of (some es) = es

-- The host of the options and the endpoints behind it, as the library tries them.
abbrev pub given : Options → List Endpoint
given opts = record { host = opts.host; port = opts.port } ∷ endpoints_of opts.endpoints

endpoints_of-set_endpoints : (es : List Endpoint) → endpoints_of (set_endpoints es) ≡ es
unfolding set_endpoints
endpoints_of-set_endpoints [] = refl
endpoints_of-set_endpoints (e ∷ es) = refl

given-tried :
    (client : ClientConfig) (chosen : Config)
    → chosen.first.port ≢ 0
    → given (options_of (connect_config client chosen)) ≡ tried chosen
unfolding options_of connect_config or_default tried
given-tried client chosen h =
    let port : (chosen.first.port == 0) ≡ false = ground arith in
    rw (port, endpoints_of-set_endpoints chosen.failover)

first_port : (chosen : Config) → All (λ e. e.port ≢ 0) (tried chosen) → chosen.first.port ≢ 0
unfolding tried
first_port chosen h = h.0

-- Where no host has port 0, a new connection gives the library every host of its client exactly once, in their order
-- around from one of them, which is the primary unless the strategy is round robin or random. This needs that the random
-- number is in the range that was asked for.
pub given-hosts :
    (client : ClientConfig) (drawn : ℕ)
    → drawn < total_of client.hosts
    → All (λ e. e.port ≢ 0) (hosts client.hosts)
    → let opts = options_of (connect_config client (factory drawn client.hosts).0) in
      (start : ℕ) × (start < total_of client.hosts)
      × (given opts ≡ drop start (hosts client.hosts) ++ take start (hosts client.hosts))
      × ((start ≡ 0) ⊎ (client.hosts.open_strategy ≡ 1) ⊎ (client.hosts.open_strategy ≡ 2))
given-hosts client drawn lt ports =
    let (start, below, eq, why) = factory-hosts drawn client.hosts lt in
    let all = hosts client.hosts in
    let chosen = (factory drawn client.hosts).0 in
    let ok = subst (All (λ e. e.port ≢ 0)) (sym eq) (
      All-append _ (drop start all) (take start all) (All-drop _ start all ports)
        (All-take _ start all ports)) in
    (start, below, given-tried client chosen (first_port chosen ok) ∙ eq, why)
