-- ===== src/Signaling/Limiter.antt =====
-- messageLimiter of internal/signaling/ws.go, on the float64 of `Floats`. The clock is the argument `now`,
-- which does not run backwards.
use peerclaw_server.Prelude.{ℕ, ◌-◌, List, [], ◌∷◌, Bool, true, false, if◌then◌else◌, ◌+◌, ◌≤◌}
use peerclaw_server.Signaling.Floats.{Float64}

module _ (f : Float64) where
  pub record MessageLimiter : Type 0 where
    pub tokens : f.Carrier
    pub max_burst : f.Carrier
    pub rate : f.Carrier
    pub last_time : ℕ

  unfoldable pub new_message_limiter : f.Carrier → ℕ → ℕ → MessageLimiter
  new_message_limiter rate burst now = record {
    tokens = f.of_int burst;
    max_burst = f.of_int burst;
    rate = rate;
    last_time = now;
  }

  -- l.tokens += elapsed * l.rate
  abbrev pub added : ℕ → MessageLimiter → f.Carrier
  added now l = f.plus l.tokens (f.times (f.seconds (now - l.last_time)) l.rate)

  -- The tokens after the refill.
  unfoldable pub refilled : ℕ → MessageLimiter → f.Carrier
  refilled now l = if f.below l.max_burst (added now l) then l.max_burst else added now l

  unfoldable pub allow : ℕ → MessageLimiter → MessageLimiter × Bool
  unfolding refilled
  allow now l =
      if f.below (refilled now l) f.one_token
      then (record l { tokens = refilled now l; last_time = now }, false)
      else (record l { tokens = f.minus (refilled now l) f.one_token; last_time = now }, true)

  -- The limiter after calls at the given times, and how many of them it allowed.
  unfoldable pub run_limiter : MessageLimiter → List ℕ → MessageLimiter × ℕ
  unfolding allow
  run_limiter l [] = (l, 0)
  run_limiter l (now ∷ times) =
      let rest = run_limiter (allow now l).0 times in
      (rest.0, rest.1 + (if (allow now l).1 then 1 else 0))

abbrev pub IsTimed : ℕ → List ℕ → Type 0
IsTimed last [] = Unit
IsTimed last (now ∷ times) = (last ≤ now) × IsTimed now times
