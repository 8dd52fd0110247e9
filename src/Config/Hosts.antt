-- ===== src/Config/Hosts.antt =====
-- Which hosts and ports a client is given.
use php_clickhouse.Base.{
  ℕ, suc, ◌+◌, ◌-◌, ◌*◌, ◌^◌, ◌≤◌, ◌<◌, ◌≡◌, ◌≢◌, ◌⊎◌, refl, ap, sym, ◌∙◌, Bytes, List, [], ◌∷◌,
  ◌++◌, append_assoc, append-nil, map, none, some, arith, All, IsDigit, digits_value,
  format_decimal, format_decimal-value, format_decimal-All, format_decimal-ne-nil,
}
use php_clickhouse.Base.Int.{pos}
use php_clickhouse.Pool.{ClientObject}
use php_clickhouse.Config.{
  split_last_colon, is_space, skip_space, leading_digits, signed, strtol, port_of, host_and_port,
  parse_host_port, add_host, add_hosts,
}

-- A text without a colon.
abbrev pub NoColon : Bytes → Type 0
NoColon s = All (λ c. c ≢ b':') s

split_last_colon-none : (s : Bytes) → NoColon s → split_last_colon s ≡ none
unfolding split_last_colon
split_last_colon-none [] h = refl
split_last_colon-none (c ∷ s) h = rw (split_last_colon-none s h.1) (ground arith)

split_last_colon-append :
    (host tail : Bytes) → NoColon tail → split_last_colon (host ++ b':' ∷ tail) ≡ some (host, tail)
unfolding split_last_colon
split_last_colon-append [] tail h = rw (split_last_colon-none tail h)
split_last_colon-append (c ∷ host) tail h = rw (split_last_colon-append host tail h)

digits-NoColon : (s : Bytes) → All IsDigit s → NoColon s
digits-NoColon [] h = tt
digits-NoColon (c ∷ s) h = (ground arith, digits-NoColon s h.1)

leading_digits-value : (n : ℕ) (s : Bytes) → All IsDigit s → leading_digits n s ≡ digits_value n s
unfolding leading_digits
leading_digits-value n [] h = refl
leading_digits-value n (c ∷ s) h = ground (arith, leading_digits-value (n * 10 + (c - b'0')) s h.1)

strtol-digits :
    (s : Bytes)
    → s ≢ []
    → All IsDigit s
    → digits_value 0 s < 2 ^ 63
    → strtol s ≡ pos (digits_value 0 s)
unfolding strtol skip_space is_space signed
strtol-digits [] e h w = absurd (e refl)
strtol-digits (c ∷ s) e h w = ground (arith, leading_digits-value 0 (c ∷ s) h)

-- An entry that is a host, a colon and a port between 1 and 65535 is taken apart into both, whatever
-- bytes the host has, colons included.
pub parse_host_port-joined :
    (host : Bytes) (port default_port : ℕ)
    → 0 < port
    → port < 65536
    → parse_host_port (host ++ b':' ∷ format_decimal port) default_port
      ≡ record { host = host; port = port }
unfolding parse_host_port host_and_port port_of
parse_host_port-joined host port default_port l h =
    let digits = format_decimal port in
    let ds = format_decimal-All port in
    let value = format_decimal-value port in
    let small : digits_value 0 digits < 2 ^ 63 = omega (arith, value) in
    rw
      (
        split_last_colon-append host digits (digits-NoColon digits ds),
        strtol-digits digits (format_decimal-ne-nil port) ds small,
        value,
      )
      (ground arith)

-- Whatever an entry says, its port is between 1 and 65535 or the default.
pub parse_host_port-port :
    (str : Bytes) (default_port : ℕ)
    → ((0 < (parse_host_port str default_port).port)
        × ((parse_host_port str default_port).port ≤ 65535))
      ⊎ ((parse_host_port str default_port).port ≡ default_port)
unfolding parse_host_port host_and_port port_of
parse_host_port-port str default_port = ground arith

later_hosts :
    (index : ℕ) (strs : List Bytes) (obj : ClientObject)
    → add_hosts (suc index) strs obj ≡ record obj {
      endpoints = obj.endpoints ++ map (λ str. parse_host_port str obj.primary.port) strs;
    }
unfolding add_hosts add_host
later_hosts index [] obj = ap (λ l. record obj { endpoints = l }) (sym (append-nil obj.endpoints))
later_hosts index (str ∷ strs) obj =
    later_hosts (suc index) strs (add_host (suc index) str obj)
    ∙ ap (λ l. record obj { endpoints = l }) (append_assoc obj.endpoints _ _)

-- For a client that has no further hosts yet, the first entry of 'hosts' becomes the primary, with
-- the configured port where it has none; the others follow it in order, and where they have no port
-- they get that of the first entry.
pub add_hosts-ports :
    (first : Bytes) (strs : List Bytes) (obj : ClientObject)
    → obj.endpoints ≡ []
    → ((add_hosts 0 (first ∷ strs) obj).primary ≡ parse_host_port first obj.primary.port)
      × ((add_hosts 0 (first ∷ strs) obj).endpoints
          ≡ map (λ str. parse_host_port str (parse_host_port first obj.primary.port).port) strs)
unfolding add_hosts add_host
add_hosts-ports first strs obj e =
    let later = later_hosts 0 strs (add_host 0 first obj) in rw (later, e) (refl, refl)
