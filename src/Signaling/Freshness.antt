-- ===== src/Signaling/Freshness.antt =====
-- What a client of internal/signaling proves when authenticateConn accepts it.
use peerclaw_server.Prelude.{
  ℕ, ◌+◌, ◌≤◌, ◌<◌, ◌≡◌, ◌≢◌, ◌⊎◌, ◌↔◌, String, some, true, false, ◌==◌, ok, arith, eq_iff,
}
use peerclaw_server.Signaling.Auth.{half, modulus, is_stale, AuthFrame, Verifier, authenticate_conn}

-- The timestamp is within five seconds of the clock, or lies 2 ^ 63 from it, where the difference is
-- the smallest int64.
abbrev pub IsNear : ℕ → ℕ → Type 0
IsNear now timestamp = ((timestamp ≤ now + 5) × (now ≤ timestamp + 5)) ⊎ (timestamp ≡ now + half)

-- For a clock that is not negative and five seconds from the range's end, the test of the timestamp
-- passes exactly the timestamps within five seconds of the clock and the one that lies 2 ^ 63 from it;
-- five seconds after 1970 no negative one is within them.
pub is_stale-IsNear :
    (now timestamp : ℕ)
    → 5 ≤ now
    → now + 5 < half
    → timestamp < modulus
    → (is_stale now timestamp ≡ false) ↔ IsNear now timestamp
unfolding is_stale
is_stale-IsNear now t low high w = (λ h. ground arith, λ h. ground arith)

-- For an expected agent that is not empty, authenticateConn accepts a frame exactly where its agent is the
-- one expected, its key and signature are not empty, its timestamp passes the test, and its signature
-- fits the public key that the frame itself carries; it then returns the expected agent. Nothing else
-- ties the key to the agent.
pub authenticate_conn-accepts :
    (verified : Verifier) (now : ℕ) (expected : String) (f : AuthFrame) (agent : String)
    → expected ≢ ""
    → (authenticate_conn verified now expected (some f) ≡ ok agent) ↔ (
        (agent ≡ expected)
        × (f.agent_id ≡ expected)
        × (f.public_key ≢ "")
        × (f.signature ≢ "")
        × (is_stale now f.timestamp ≡ false)
        × (verified f.public_key f.agent_id f.timestamp f.signature ≡ true))
unfolding authenticate_conn
authenticate_conn-accepts verified now expected f agent named = (
  λ h. (
    ground (arith, h, ids),
    ground (arith, h, ids),
    λ e. ground (arith, h, eq_iff f.public_key ""),
    λ e. ground (arith, h, eq_iff f.signature ""),
    ground (arith, h),
    ground (arith, h),
  ),
  λ (a, i, k, s, t, v). ground (
    arith,
    a,
    i,
    k,
    s,
    t,
    v,
    named,
    ids,
    eq_iff f.agent_id "",
    eq_iff f.public_key "",
    eq_iff f.signature "",
  ),
)
  where
    ids : ((f.agent_id == expected) ≡ true) ↔ (f.agent_id ≡ expected)
    ids = eq_iff f.agent_id expected
