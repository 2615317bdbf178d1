-- ===== src/RateLimit/Examples.antt =====
-- Runs of internal/server/ratelimit.go, and its theorems at them.
use peerclaw_server.Prelude.{
  ◌*◌, ◌≡◌, refl, String, none, some, [], ◌∷◌, true, false, ◌==◌, not, arith, second,
}
use peerclaw_server.RateLimit.Limiters.{
  IpRateLimiter, Net, Request, client_ip, trusts, remote_host, get_limiter,
}
use peerclaw_server.RateLimit.Clients.{run_limiters, gets, cleans, get_limiter-same}

-- Addresses without ports; every text but "x" is an address.
abbrev net : Net
net = record {
  split_host_port = λ a. none;
  is_ip = λ a. not (a == "x");
  is_cidr = λ c. true;
  contains = λ c a. c == a;
  before_comma = λ a. a;
  trim_space = λ a. a;
}

abbrev limiter : IpRateLimiter
limiter = record { limiters = []; trusted_proxies = "10.0.0.1" ∷ []; next = 0 }

abbrev request : String → Request
request addr = record { remote_addr = addr; x_forwarded_for = "1.1.1.1"; x_real_ip = "" }

unproxied : trusts net (some limiter) (remote_host none "6.6.6.6") ≡ false
unfolding trusts remote_host
unproxied = refl

behind_proxy : client_ip net (request "10.0.0.1") (some limiter) ≡ "1.1.1.1"
unfolding client_ip
behind_proxy = refl

get_limiter-same_example :
    (get_limiter
      (400 * second)
      "a"
      (run_limiters (get_limiter 0 "a" limiter).0 (gets 5 "b" ∷ cleans (300 * second) ∷ []))).1
    ≡ (get_limiter 0 "a" limiter).1
get_limiter-same_example =
    get_limiter-same "a" 0 (400 * second) limiter (gets 5 "b" ∷ cleans (300 * second) ∷ [])
      (ground arith, (ground arith, tt))
