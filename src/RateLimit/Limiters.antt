-- ===== src/RateLimit/Limiters.antt =====
-- internal/server/ratelimit.go: the limiter of each client address. The token bucket of
-- golang.org/x/time/rate is its number, and the parsing of addresses the argument `net`. A call runs
-- under the lock; the clock is the argument `now`.
use peerclaw_server.Prelude.{
  ℕ, suc, ◌+◌, ◌*◌, String, Option, none, some, List, [], ◌∷◌, Bool, false, ◌||◌, not, ◌==◌, ltb,
  if◌then◌else◌, second,
}
use peerclaw_server.Prelude.Maps.{Map, get, put}

pub record Entry : Type 0 where
  pub limiter : ℕ
  pub last_seen : ℕ

-- `next` numbers the token buckets that are made.
pub record IpRateLimiter : Type 0 where
  pub limiters : Map Entry
  pub trusted_proxies : List String
  pub next : ℕ

unfoldable pub new_ip_rate_limiter : IpRateLimiter
new_ip_rate_limiter = record { limiters = []; trusted_proxies = []; next = 0 }

-- What the packages net and strings answer: the host of an address with a port, whether a text is an
-- address, whether a text is a network, whether a network contains an address, the part before the
-- first comma, and the text without outer spaces.
pub record Net : Type 0 where
  pub split_host_port : String → Option String
  pub is_ip : String → Bool
  pub is_cidr : String → Bool
  pub contains : String → String → Bool
  pub before_comma : String → String
  pub trim_space : String → String

unfoldable pub parsed_networks : Net → List String → List String
parsed_networks net [] = []
parsed_networks net (c ∷ cs) =
    let rest = parsed_networks net cs in if net.is_cidr c then c ∷ rest else rest

unfoldable pub set_trusted_proxies : Net → List String → IpRateLimiter → IpRateLimiter
unfolding parsed_networks
set_trusted_proxies net cidrs l = record l { trusted_proxies = parsed_networks net cidrs }

unfoldable pub any_contains : Net → List String → String → Bool
any_contains net [] ip = false
any_contains net (c ∷ cs) ip = net.contains c ip || any_contains net cs ip

unfoldable pub is_trusted_proxy : Net → IpRateLimiter → String → Bool
unfolding any_contains
is_trusted_proxy net l ip =
    if not (net.is_ip ip) then false else any_contains net l.trusted_proxies ip

unfoldable pub use_entry : ℕ → String → IpRateLimiter → Option Entry → IpRateLimiter × ℕ
use_entry now ip l none = (
  record l {
    limiters = put ip (record { limiter = l.next; last_seen = now }) l.limiters;
    next = suc l.next;
  },
  l.next,
)
use_entry now ip l (some e) =
    (record l { limiters = put ip (record e { last_seen = now }) l.limiters }, e.limiter)

unfoldable pub get_limiter : ℕ → String → IpRateLimiter → IpRateLimiter × ℕ
unfolding use_entry
get_limiter now ip l = use_entry now ip l (get ip l.limiters)

-- 5 minutes.
abbrev pub idle : ℕ
idle = 300 * second

-- `entry.lastSeen.Before(now.Add(-5 * time.Minute))`
abbrev pub is_stale : ℕ → Entry → Bool
is_stale now e = ltb (e.last_seen + idle) now

unfoldable pub without_stale : ℕ → Map Entry → Map Entry
without_stale now [] = []
without_stale now ((ip, e) ∷ m) =
    let rest = without_stale now m in if is_stale now e then rest else (ip, e) ∷ rest

unfoldable pub cleanup : ℕ → IpRateLimiter → IpRateLimiter
unfolding without_stale
cleanup now l = record l { limiters = without_stale now l.limiters }

-- The request's remote address and two headers, empty where they are absent.
pub record Request : Type 0 where
  pub remote_addr : String
  pub x_forwarded_for : String
  pub x_real_ip : String

unfoldable pub remote_host : Option String → String → String
remote_host (some host) addr = host
remote_host none addr = addr

unfoldable pub real_ip : Net → Request → String → String
real_ip net r host =
    if r.x_real_ip == ""
    then host
    else if net.is_ip (net.trim_space r.x_real_ip)
    then net.trim_space r.x_real_ip
    else host

-- The headers of a trusted proxy.
unfoldable pub proxied_ip : Net → Request → String → String
unfolding real_ip
proxied_ip net r host =
    if r.x_forwarded_for == ""
    then real_ip net r host
    else if net.is_ip (net.trim_space (net.before_comma r.x_forwarded_for))
    then net.trim_space (net.before_comma r.x_forwarded_for)
    else real_ip net r host

-- none is the nil limiter.
unfoldable pub trusts : Net → Option IpRateLimiter → String → Bool
unfolding is_trusted_proxy
trusts net none host = false
trusts net (some l) host = is_trusted_proxy net l host

unfoldable pub client_ip : Net → Request → Option IpRateLimiter → String
unfolding remote_host proxied_ip trusts
client_ip net r limiter =
    let host = remote_host (net.split_host_port r.remote_addr) r.remote_addr in
    if trusts net limiter host then proxied_ip net r host else host

-- RateLimitMiddleware: the bucket's verdict is the argument `allow`; the status is 429 or what the next
-- handler answers.
unfoldable pub rate_limit :
    Net → (ℕ → Bool) → ℕ → Request → IpRateLimiter → IpRateLimiter × Option ℕ
unfolding client_ip get_limiter
rate_limit net allow now r l =
    let used = get_limiter now (client_ip net r (some l)) l in
    (used.0, if allow used.1 then none else some 429)
