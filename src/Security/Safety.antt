-- ===== src/Security/Safety.antt =====
-- What a URL that internal/security/urlvalidator.go accepts can reach.
use peerclaw_server.Prelude.{
  ◌≡◌, ◌≢◌, inl, inr, ◌⊎◌, String, some, List, [], ◌∷◌, true, false, ok, arith, eq_iff, All,
  Option-cases, Bool-cases,
}
use peerclaw_server.Security.Url.{
  ParsedUrl, Net, is_private_ip, any_private, is_allowed_scheme, is_metadata, check_address,
  validate_url, dial_context,
}

abbrev pub IsPublic : Net → String → Type 0
IsPublic net ip = is_private_ip net ip ≡ false

any_private-IsPublic :
    (net : Net) (ips : List String) → any_private net ips ≡ false → All (IsPublic net) ips
unfolding any_private
any_private-IsPublic net [] h = tt
any_private-IsPublic net (ip ∷ ips) h =
    (ground (arith, h), any_private-IsPublic net ips (ground (arith, h)))

-- The addresses of a host: the one that it is, or those that the DNS gives.
abbrev pub Reaches : Net → String → Type 0
Reaches net host =
    ((ip : String) × (net.parse_ip host ≡ some ip) × IsPublic net ip)
    ⊎ ((ips : List String) × (net.lookup_ip host ≡ some ips) × All (IsPublic net) ips)

-- What an accepted URL has.
pub record IsSafe (net : Net) (raw : String) (u : ParsedUrl) : Type 0 where
  pub parsed : net.parse raw ≡ some u
  pub scheme : is_allowed_scheme (net.to_lower u.scheme) ≡ true
  pub named : u.hostname ≢ ""
  pub metadata : is_metadata u.hostname ≡ false
  pub reaches : Reaches net u.hostname

check_address-Reaches :
    (net : Net) (host : String)
    → check_address net false host (net.parse_ip host) ≡ ok tt
    → Reaches net host
unfolding check_address
check_address-Reaches net host h = elim (Option-cases (net.parse_ip host)) [
  | inr (ip, f) ↦ inl (ip, f, ground (arith, h, f))
  | inl n ↦ elim (Option-cases (net.lookup_ip host)) [
    | inl m ↦ ground (arith, h, n, m)
    | inr (ips, f) ↦ inr (ips, f, any_private-IsPublic net ips (ground (arith, h, n, f)))
  ]
]

-- A URL that ValidateURL accepts, with AllowLocalhost off, parses with the scheme http or https and a
-- host that is not empty and no metadata host, and the address that the host is, or each address that
-- it resolves to during the call, is not private.
pub validate_url-IsSafe :
    (net : Net) (raw : String)
    → validate_url net false raw ≡ ok tt
    → (u : ParsedUrl) × IsSafe net raw u
unfolding validate_url
validate_url-IsSafe net raw h = elim (Option-cases (net.parse raw)) [
  | inl n ↦ ground (arith, h, n)
  | inr (u, f) ↦ (
    u,
    record {
      parsed = f;
      scheme = ground (arith, h, f);
      named = λ e. ground (arith, h, f, eq_iff u.hostname "");
      metadata = ground (arith, h, f);
      reaches = check_address-Reaches net u.hostname (ground (arith, h, f));
    },
  )
]

-- The dialer is given the host and port of the address only when the name resolves, during the call, to
-- addresses that are all not private. What it dials is the name, not one of those addresses.
pub dial_context-IsPublic :
    (net : Net) (addr host port : String)
    → dial_context net addr ≡ ok (host, port)
    → (net.split_host_port addr ≡ some (host, port))
      × ((ips : List String) × (net.lookup_ip host ≡ some ips) × All (IsPublic net) ips)
unfolding dial_context
dial_context-IsPublic net addr host port h = elim (Option-cases (net.split_host_port addr)) [
  | inl n ↦ ground (arith, h, n)
  | inr ((a, b), f) ↦ elim (Option-cases (net.lookup_ip a)) [
    | inl m ↦ ground (arith, h, f, m)
    | inr (ips, g) ↦ elim (Bool-cases (any_private net ips)) [
      | inl y ↦ ground (arith, h, f, g, y)
      | inr n ↦ (
        ground (arith, h, f, g, n),
        (ips, ground (arith, h, f, g, n), any_private-IsPublic net ips n),
      )
    ]
  ]
]
