-- ===== src/RateLimit/Clients.antt =====
-- Which limiter a client of internal/server/ratelimit.go meets.
use peerclaw_server.Prelude.{
  ℕ, ◌+◌, ◌≤◌, ◌≡◌, refl, inl, inr, String, Option, some, List, [], ◌∷◌, false, ◌==◌, arith, eq_iff,
  eq_refl, All, Option-cases, Bool-cases,
}
use peerclaw_server.Prelude.Maps.{Map, get, get-put}
use peerclaw_server.RateLimit.Limiters.{
  Entry, IpRateLimiter, Net, Request, remote_host, trusts, client_ip, get_limiter, idle, is_stale,
  without_stale, cleanup,
}

-- From an address that is no trusted proxy the two headers play no part.
pub client_ip-untrusted :
    (net : Net) (r : Request) (limiter : Option IpRateLimiter) (forged real : String)
    → trusts net limiter (remote_host (net.split_host_port r.remote_addr) r.remote_addr) ≡ false
    → client_ip net (record r { x_forwarded_for = forged; x_real_ip = real }) limiter
      ≡ client_ip net r limiter
unfolding client_ip
client_ip-untrusted net r limiter forged real h = ground (arith, h)

pub data Call : Type 0 where
  gets : ℕ → String → Call
  cleans : ℕ → Call

unfoldable pub step : IpRateLimiter → Call → IpRateLimiter
step l (gets now ip) = (get_limiter now ip l).0
step l (cleans now) = cleanup now l

unfoldable pub run_limiters : IpRateLimiter → List Call → IpRateLimiter
unfolding step
run_limiters l [] = l
run_limiters l (c ∷ cs) = run_limiters (step l c) cs

-- The address is known with a limiter, and was seen at a time or later.
abbrev pub Holds : String → ℕ → ℕ → IpRateLimiter → Type 0
Holds ip limiter seen l =
    (e : Entry) × (get ip l.limiters ≡ some e) × (e.limiter ≡ limiter) × (seen ≤ e.last_seen)

-- The call's time lies between the last visit and five minutes after it.
abbrev pub IsSoon : ℕ → Call → Type 0
IsSoon seen (gets now ip) = seen ≤ now
IsSoon seen (cleans now) = now ≤ seen + idle

get-without_stale :
    (now : ℕ) (ip : String) (m : Map Entry) (e : Entry)
    → get ip m ≡ some e
    → is_stale now e ≡ false
    → get ip (without_stale now m) ≡ some e
unfolding get without_stale
get-without_stale now ip [] e h f = ground arith
get-without_stale now ip ((j, x) ∷ m) e h f = ground (arith, h, f, get-without_stale now ip m e)

step-Holds :
    (ip : String) (limiter seen : ℕ) (l : IpRateLimiter) (c : Call)
    → IsSoon seen c
    → Holds ip limiter seen l
    → Holds ip limiter seen (step l c)
unfolding step get_limiter cleanup
step-Holds ip limiter seen l (cleans now) soon (e, f, k, s) =
    (e, get-without_stale now ip l.limiters e f (ground arith), k, s)
step-Holds ip limiter seen l (gets now j) soon (e, f, k, s) =
    elim (Option-cases (get j l.limiters)) [
      | inl n ↦ (
        e,
        ground (
          arith,
          f,
          n,
          eq_iff j ip,
          get-put ip j (record { limiter = l.next; last_seen = now }) l.limiters,
        ),
        k,
        s,
      )
      | inr (x, n) ↦ elim (Bool-cases (j == ip)) [
        | inl y ↦ (
          record e { last_seen = now },
          ground
              (arith, f, n, y, eq_iff j ip, get-put ip j (record x { last_seen = now }) l.limiters),
          k,
          soon,
        )
        | inr d ↦ (
          e,
          ground (arith, f, n, d, get-put ip j (record x { last_seen = now }) l.limiters),
          k,
          s,
        )
      ]
    ]

run_limiters-Holds :
    (ip : String) (limiter seen : ℕ) (l : IpRateLimiter) (cs : List Call)
    → All (IsSoon seen) cs
    → Holds ip limiter seen l
    → Holds ip limiter seen (run_limiters l cs)
unfolding run_limiters
run_limiters-Holds ip limiter seen l [] soon h = h
run_limiters-Holds ip limiter seen l (c ∷ cs) soon h =
    run_limiters-Holds ip limiter seen (step l c) cs soon.1
      (step-Holds ip limiter seen l c soon.0 h)

get_limiter-Holds :
    (now : ℕ) (ip : String) (l : IpRateLimiter)
    → Holds ip (get_limiter now ip l).1 now (get_limiter now ip l).0
unfolding get_limiter
get_limiter-Holds now ip l = elim (Option-cases (get ip l.limiters)) [
  | inl n ↦ rw n (
    record { limiter = l.next; last_seen = now },
    ground (
      arith,
      eq_refl ip,
      get-put ip ip (record { limiter = l.next; last_seen = now }) l.limiters,
    ),
    refl,
    omega arith,
  )
  | inr (e, f) ↦ rw f (
    record e { last_seen = now },
    ground (arith, eq_refl ip, get-put ip ip (record e { last_seen = now }) l.limiters),
    refl,
    omega arith,
  )
]

-- A client that comes back after any visits of clients, and cleanups that ran no later than five
-- minutes after its own visit, meets the same token bucket: no cleanup gives it a new one.
pub get_limiter-same :
    (ip : String) (now later : ℕ) (l : IpRateLimiter) (cs : List Call)
    → All (IsSoon now) cs
    → (get_limiter later ip (run_limiters (get_limiter now ip l).0 cs)).1 ≡ (get_limiter now ip l).1
unfolding get_limiter
get_limiter-same ip now later l cs soon =
    let (e, f, k, s) =
      run_limiters-Holds ip (get_limiter now ip l).1 now (get_limiter now ip l).0 cs soon
        (get_limiter-Holds now ip l) in
    ground (arith, f, k)
