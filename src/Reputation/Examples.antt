-- ===== src/Reputation/Examples.antt =====
-- Runs of internal/reputation, and its theorems at them.
use peerclaw_server.Prelude.{
  ℕ, ◌+◌, ◌-◌, ◌*◌, ◌/◌, refl, none, some, [], ◌∷◌, Bool, true, false, ◌==◌, leb, if◌then◌else◌,
  Env, arith,
}
use peerclaw_server.Reputation.Floats.{Float64, IsFloat64}
use peerclaw_server.Reputation.Store.{Db}
use peerclaw_server.Reputation.Engine.{Engine}
use peerclaw_server.Reputation.Scores.{
  IsConfigured, AreUnits, records, verifies, run_scores, run_scores-AreUnits,
}

-- Thousandths, without NaN.
abbrev thousandths : Float64
thousandths = record {
  Carrier = ℕ;
  zero_score = 0;
  one_score = 1_000;
  half_score = 500;
  plus = λ a b. a + b;
  minus = λ a b. a - b;
  times = λ a b. a * b / 1_000;
  max = λ a b. if leb a b then b else a;
  min = λ a b. if leb a b then a else b;
  at_most = leb;
  is_nan = λ a. false;
}

thousandths-IsFloat64 : IsFloat64 thousandths
thousandths-IsFloat64 = record {
  clamps = λ x h. (ground arith, ground arith);
  adds = λ a b c d ha hb hc hd. refl;
  complements = λ a h. (ground arith, ground (arith, h));
  half_IsUnit = (refl, refl);
}

abbrev engine : Engine thousandths
engine = record {
  alpha = 100;
  event_configs = λ kind.
      if kind == "heartbeat_miss"
      then some (record { weight = 0; normalized_value = 350 })
      else none;
}

engine-IsConfigured : IsConfigured thousandths engine
engine-IsConfigured = record {
  alpha = (refl, refl);
  values = λ kind cfg e. (ground (arith, e), ground (arith, e));
}

abbrev env : Bool → Env
env reads = record {
  up = λ k. (if leb k 0 then reads else true);
  uuid = λ k. "";
  now = λ k. 1_000_000_000;
}

abbrev db : Db thousandths
db = record {
  events = [];
  agents =
      record { id = "alice"; score = 900; event_count = 0; verified = false; verified_at = none }
      ∷ [];
}

run_scores-AreUnits_example :
    AreUnits thousandths
      (run_scores thousandths engine db (
        records (env true) "alice" "heartbeat_miss" ""
        ∷ verifies true 5 (env true) "alice"
        ∷ [])).agents
run_scores-AreUnits_example =
    run_scores-AreUnits thousandths engine db
      (records (env true) "alice" "heartbeat_miss" "" ∷ verifies true 5 (env true) "alice" ∷ [])
      thousandths-IsFloat64 engine-IsConfigured ((refl, refl), tt)
