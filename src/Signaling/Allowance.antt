-- ===== src/Signaling/Allowance.antt =====
-- How many messages the limiter of a connection lets through, the rounding of float64 included.
use peerclaw_server.Prelude.{
  ℕ, ◌+◌, ◌-◌, ◌*◌, ◌≤◌, ◌≡◌, refl, inl, inr, List, [], ◌∷◌, Bool, true, false, leb, if◌then◌else◌,
  arith, second, length, Bool-cases, if_cases,
}
use peerclaw_server.Signaling.Floats.{Float64, IsFloat64, most}
use peerclaw_server.Signaling.Limiter.{
  MessageLimiter, new_message_limiter, refilled, allow, run_limiter, IsTimed,
}

module _ (f : Float64) (laws : IsFloat64 f) (burst rate : ℕ) (small : burst ≤ 100_000)
    (slow : rate ≤ 100_000) where
  -- A limiter of that rate and burst, which holds no more than its burst.
  record IsReady (l : MessageLimiter f) : Type 0 where
    pub max : l.max_burst ≡ f.of_int burst
    pub speed : l.rate ≡ f.of_int rate
    pub amount : f.is_amount l.tokens ≡ true
    pub full : f.billionths l.tokens ≤ burst * second

  -- What the refill leaves: no more than the burst, and no more than the time gives, up to two units.
  abbrev IsRefill : ℕ → MessageLimiter f → f.Carrier → Type 0
  IsRefill now l x =
      (f.is_amount x ≡ true)
      × (f.billionths x ≤ burst * second)
      × (f.billionths x ≤ f.billionths l.tokens + (now - l.last_time) * rate + 2)

  -- What the clock gives, and the tokens with it.
  abbrev gain : ℕ → MessageLimiter f → f.Carrier
  gain now l = f.times (f.seconds (now - l.last_time)) (f.of_int rate)

  abbrev refill : ℕ → MessageLimiter f → f.Carrier
  refill now l = f.plus l.tokens (gain now l)

  sum-amount : (now : ℕ) (l : MessageLimiter f) → IsReady l → f.is_amount (refill now l) ≡ true
  sum-amount now l h =
      laws.sums_are_amounts l.tokens (gain now l) h.amount
        (laws.products_are_amounts (now - l.last_time) rate (omega (arith, slow)))

  -- The sum, where the time gives no more than the burst.
  sum-le :
      (now : ℕ) (l : MessageLimiter f)
      → IsReady l
      → (now - l.last_time) * rate ≤ burst * second
      → f.billionths (refill now l) ≤ f.billionths l.tokens + (now - l.last_time) * rate + 2
  sum-le now l h short =
      let g =
        laws.products (now - l.last_time) rate (omega (arith, slow))
          (omega (arith, short, small)) in
      omega (
        arith,
        g,
        laws.sums l.tokens (gain now l) h.amount
            (laws.products_are_amounts (now - l.last_time) rate (omega (arith, slow)))
            (omega (arith, g, h.full, short, small)),
      )

  refilled-IsRefill :
      (now : ℕ) (l : MessageLimiter f) → IsReady l → IsRefill now l (refilled f now l)
  unfolding refilled
  refilled-IsRefill now l h =
      rw (h.max, h.speed)
        (if_cases (IsRefill now l) (f.below (f.of_int burst) (refill now l))
          (λ over. (
            (laws.ints burst (omega (arith, small))).0,
            (laws.ints burst (omega (arith, small))).1,
            capped over,
          ))
          (λ within. (sum-amount now l h, under within, uncapped within)))
    where
      sum : f.Carrier
      sum = refill now l

      limit : burst * second ≤ most
      limit = omega (arith, small)

      capped :
          f.below (f.of_int burst) sum ≡ true
          → f.billionths (f.of_int burst) ≤ f.billionths l.tokens + (now - l.last_time) * rate + 2
      capped over = elim (Bool-cases (leb ((now - l.last_time) * rate) (burst * second))) [
        | inl short ↦ omega (
          arith,
          (laws.ints burst limit).1,
          laws.above burst sum limit (sum-amount now l h) over,
          sum-le now l h (ground (arith, short)),
        )
        | inr long ↦ ground (arith, (laws.ints burst limit).1, long)
      ]

      under : f.below (f.of_int burst) sum ≡ false → f.billionths sum ≤ burst * second
      under within = laws.not_above burst sum limit (sum-amount now l h) within

      uncapped :
          f.below (f.of_int burst) sum ≡ false
          → f.billionths sum ≤ f.billionths l.tokens + (now - l.last_time) * rate + 2
      uncapped within = elim (Bool-cases (leb ((now - l.last_time) * rate) (burst * second))) [
        | inl short ↦ sum-le now l h (ground (arith, short))
        | inr long ↦ ground (arith, under within, long)
      ]

  -- One call: what it allows it takes from the tokens, and what it adds the clock gives, up to two units.
  abbrev IsCost : ℕ → MessageLimiter f → MessageLimiter f × Bool → Type 0
  IsCost now l x =
      IsReady x.0
      × (x.0.last_time ≡ now)
      × ((if x.1 then second else 0) + f.billionths x.0.tokens
          ≤ f.billionths l.tokens + (now - l.last_time) * rate + 2)

  allow-IsCost : (now : ℕ) (l : MessageLimiter f) → IsReady l → IsCost now l (allow f now l)
  unfolding allow
  allow-IsCost now l h =
      let (amount, full, le) = refilled-IsRefill now l h in
      if_cases {A = MessageLimiter f × Bool} (IsCost now l) (f.below (refilled f now l) f.one_token)
        (λ few. (
          record { max = h.max; speed = h.speed; amount = amount; full = full },
          refl,
          omega (arith, le),
        ))
        (λ enough.
          let (amount', spent) =
            laws.spends (refilled f now l) amount (omega (arith, full, small)) enough in
          (
            record {
              max = h.max;
              speed = h.speed;
              amount = amount';
              full = omega (arith, spent, full);
            },
            refl,
            omega (arith, spent, le),
          ))

  elapsed : (last now : ℕ) → last ≤ now → now * rate ≡ last * rate + (now - last) * rate
  elapsed last now h = grind arith

  run_limiter-le :
      (l : MessageLimiter f) (times : List ℕ)
      → IsReady l
      → IsTimed l.last_time times
      → (run_limiter f l times).1 * second
          + f.billionths (run_limiter f l times).0.tokens
          + l.last_time * rate
        ≤ f.billionths l.tokens + (run_limiter f l times).0.last_time * rate + 2 * length times
  unfolding run_limiter
  run_limiter-le l [] h t = omega arith
  run_limiter-le l (now ∷ times) h t =
      let (ready, same, cost) = allow-IsCost now l h in
      let rest = run_limiter-le (allow f now l).0 times ready (rw same t.1) in
      ground (arith, same, cost, elapsed l.last_time now t.0, rest)

  -- For floats with the laws of IsFloat64 and a burst and a rate up to 100000: at times that do not run backwards, a
  -- new limiter allows at most `burst` messages and `rate` more per second since its start, where the
  -- rounding of each call may add two billionths of a message.
  pub new_message_limiter-bound :
      (start : ℕ) (times : List ℕ)
      → IsTimed start times
      → (run_limiter f (new_message_limiter f (f.of_int rate) burst start) times).1 * second
          + start * rate
        ≤ burst * second
          + (run_limiter f (new_message_limiter f (f.of_int rate) burst start) times).0.last_time
            * rate
          + 2 * length times
  unfolding new_message_limiter
  new_message_limiter-bound start times t =
      let (amount, full) = laws.ints burst (omega (arith, small)) in
      omega (
        arith,
        full,
        run_limiter-le (new_message_limiter f (f.of_int rate) burst start) times
            (record { max = refl; speed = refl; amount = amount; full = full }) t,
      )
