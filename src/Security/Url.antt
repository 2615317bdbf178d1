-- ===== src/Security/Url.antt =====
-- internal/security/urlvalidator.go. The parsing of URLs and addresses, the classes of addresses, the
-- networks' Contains and the DNS are the argument `net`; two resolutions of one name may differ, so each
-- call has its own.
use peerclaw_server.Prelude.{
  String, Option, none, some, List, [], ◌∷◌, Bool, true, false, ◌&&◌, ◌||◌, not, ◌==◌,
  if◌then◌else◌, Result, ok, err,
}

pub record ParsedUrl : Type 0 where
  pub scheme : String
  pub hostname : String

-- What net, net/url and strings answer. An address is a text.
pub record Net : Type 0 where
  pub parse : String → Option ParsedUrl
  pub to_lower : String → String
  pub parse_ip : String → Option String
  pub lookup_ip : String → Option (List String)
  pub is_loopback : String → Bool
  pub is_link_local_unicast : String → Bool
  pub is_link_local_multicast : String → Bool
  pub contains : String → String → Bool
  pub split_host_port : String → Option (String × String)

abbrev pub private_networks : List String
private_networks =
    "10.0.0.0/8" ∷ "172.16.0.0/12" ∷ "192.168.0.0/16" ∷ "127.0.0.0/8" ∷ "169.254.0.0/16" ∷ "::1/128"
    ∷ "fc00::/7" ∷ "fe80::/10" ∷ []

unfoldable pub any_contains : Net → List String → String → Bool
any_contains net [] ip = false
any_contains net (c ∷ cs) ip = net.contains c ip || any_contains net cs ip

unfoldable pub is_private_ip : Net → String → Bool
unfolding any_contains
is_private_ip net ip =
    if net.is_loopback ip || (net.is_link_local_unicast ip || net.is_link_local_multicast ip)
    then true
    else any_contains net private_networks ip

unfoldable pub any_private : Net → List String → Bool
any_private net [] = false
any_private net (ip ∷ ips) = is_private_ip net ip || any_private net ips

unfoldable pub is_allowed_scheme : String → Bool
is_allowed_scheme s = s == "http" || s == "https"

unfoldable pub is_metadata : String → Bool
is_metadata host = host == "169.254.169.254" || host == "metadata.google.internal"

pub data UrlError : Type 0 where
  empty_url invalid_url disallowed_scheme missing_hostname metadata_blocked private_blocked
        lookup_failed :
      UrlError

-- The addresses that the name resolves to.
unfoldable pub check_resolved : Net → Bool → Option (List String) → Result UrlError (Unit {0})
unfolding any_private
check_resolved net allow_localhost none = err lookup_failed
check_resolved net allow_localhost (some ips) =
    if not allow_localhost && any_private net ips then err private_blocked else ok tt

-- A host that is an address, or a name.
unfoldable pub check_address : Net → Bool → String → Option String → Result UrlError (Unit {0})
unfolding check_resolved
check_address net allow_localhost host (some ip) =
    if is_private_ip net ip && not allow_localhost then err private_blocked else ok tt
check_address net allow_localhost host none =
    check_resolved net allow_localhost (net.lookup_ip host)

unfoldable pub check_url : Net → Bool → Option ParsedUrl → Result UrlError (Unit {0})
unfolding is_allowed_scheme is_metadata check_address
check_url net allow_localhost none = err invalid_url
check_url net allow_localhost (some u) =
    if not (is_allowed_scheme (net.to_lower u.scheme))
    then err disallowed_scheme
    else if u.hostname == ""
    then err missing_hostname
    else if is_metadata u.hostname
    then err metadata_blocked
    else check_address net allow_localhost u.hostname (net.parse_ip u.hostname)

unfoldable pub validate_url : Net → Bool → String → Result UrlError (Unit {0})
unfolding check_url
validate_url net allow_localhost raw =
    if raw == "" then err empty_url else check_url net allow_localhost (net.parse raw)

-- DialContext of NewSafeHTTPClient: the host and port that the dialer is given, if it is.
unfoldable pub dial_resolved :
    Net → String × String → Option (List String) → Result UrlError (String × String)
unfolding any_private
dial_resolved net target none = err lookup_failed
dial_resolved net target (some ips) = if any_private net ips then err private_blocked else ok target

unfoldable pub dial_target : Net → Option (String × String) → Result UrlError (String × String)
unfolding dial_resolved
dial_target net none = err invalid_url
dial_target net (some (host, port)) = dial_resolved net (host, port) (net.lookup_ip host)

unfoldable pub dial_context : Net → String → Result UrlError (String × String)
unfolding dial_target
dial_context net addr = dial_target net (net.split_host_port addr)
