-- ===== src/Signaling/Capacity.antt =====
-- How many connections the hub of internal/signaling/ws.go holds.
use peerclaw_server.Prelude.{
  ℕ, ◌+◌, ◌≤◌, ◌<◌, ◌≡◌, ◌≢◌, refl, inl, inr, String, none, List, [], ◌∷◌, true, length, arith,
  eq_iff, All, Option-cases,
}
use peerclaw_server.Prelude.Maps.{get, put, get-put, length-put-le, length-put-new, length-del-le}
use peerclaw_server.Signaling.Conns.{
  Conns, admits, register, unregister, close_all, Event, registers, events, connect,
}

-- The calls of HandleConnect run one after another, with any disconnections between them.
pub data Call : Type 0 where
  connects : String → ℕ → Call
  disconnects : String → ℕ → Call
  closes : Call

unfoldable pub step : ℕ → Conns → Call → Conns
unfolding connect unregister close_all
step max conns (connects agent conn) = connect max agent conn conns
step max conns (disconnects agent conn) = unregister agent conn conns
step max conns closes = close_all conns

unfoldable pub run_hub : ℕ → Conns → List Call → Conns
unfolding step
run_hub max conns [] = conns
run_hub max conns (c ∷ cs) = run_hub max (step max conns c) cs

connect-length :
    (max : ℕ) (agent : String) (conn : ℕ) (conns : Conns)
    → 0 < max
    → length conns ≤ max
    → length (connect max agent conn conns) ≤ max
unfolding connect
connect-length max agent conn conns pos h = elim (Option-cases (get agent conns)) [
  | inl n ↦ ground (arith, length-put-new agent conn conns n)
  | inr (c, f) ↦ ground (arith, length-put-le agent conn c conns f)
]

step-length :
    (max : ℕ) (conns : Conns) (c : Call)
    → 0 < max
    → length conns ≤ max
    → length (step max conns c) ≤ max
unfolding step
step-length max conns (connects agent conn) pos h = connect-length max agent conn conns pos h
step-length max conns (disconnects agent conn) pos h = ground (arith, length-del-le agent conns)
step-length max conns closes pos h = ground arith

-- When no other call runs between the check of a connection and its registration, a hub within a limit
-- above 0 stays within it.
pub run_hub-length :
    (max : ℕ) (conns : Conns) (cs : List Call)
    → 0 < max
    → length conns ≤ max
    → length (run_hub max conns cs) ≤ max
unfolding run_hub
run_hub-length max conns [] pos h = h
run_hub-length max conns (c ∷ cs) pos h =
    run_hub-length max (step max conns c) cs pos (step-length max conns c pos h)

abbrev pub Fresh : String → List (String × ℕ) → Type 0
Fresh agent [] = Unit
Fresh agent ((a, c) ∷ bs) = (a ≢ agent) × Fresh agent bs

-- The agents differ.
abbrev pub AreApart : List (String × ℕ) → Type 0
AreApart [] = Unit
AreApart ((a, c) ∷ bs) = Fresh a bs × AreApart bs

abbrev pub registrations : List (String × ℕ) → List Event
registrations [] = []
registrations ((a, c) ∷ bs) = registers a c ∷ registrations bs

abbrev pub Absent : Conns → List (String × ℕ) → Type 0
Absent conns [] = Unit
Absent conns ((a, c) ∷ bs) = (get a conns ≡ none) × Absent conns bs

put-Absent :
    (a : String) (c : ℕ) (conns : Conns) (bs : List (String × ℕ))
    → Fresh a bs
    → Absent conns bs
    → Absent (put a c conns) bs
put-Absent a c conns [] f h = tt
put-Absent a c conns ((b, d) ∷ bs) f h = (
  ground (arith, f.0, h.0, get-put b a c conns, eq_iff a b, eq_iff b a),
  put-Absent a c conns bs f.1 h.1,
)

registrations-length :
    (conns : Conns) (bs : List (String × ℕ))
    → AreApart bs
    → Absent conns bs
    → length (events conns (registrations bs)) ≡ length conns + length bs
unfolding events register
registrations-length conns [] d h = omega arith
registrations-length conns ((a, c) ∷ bs) d h = omega (
  arith,
  length-put-new a c conns h.0,
  registrations-length (put a c conns) bs d.1 (put-Absent a c conns bs d.0 h.1),
)

-- The check and the registration are separate: any number of different agents pass the check on an
-- empty hub, whatever the configured number is, and the hub then holds them all.
pub overlapping-length :
    (max : ℕ) (bs : List (String × ℕ))
    → AreApart bs
    → All (λ a. admits max a.0 [] ≡ true) bs × (length (events [] (registrations bs)) ≡ length bs)
unfolding admits
overlapping-length max bs d =
    (all_admitted bs, omega (arith, registrations-length [] bs d (absent bs)))
  where
    all_admitted : (cs : List (String × ℕ)) → All (λ a. admits max a.0 [] ≡ true) cs
    all_admitted [] = tt
    all_admitted ((a, c) ∷ cs) = (unfold get in ground arith, all_admitted cs)

    absent : (cs : List (String × ℕ)) → Absent [] cs
    absent [] = tt
    absent ((a, c) ∷ cs) = (unfold get in refl, absent cs)
