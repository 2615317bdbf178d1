-- ===== src/Reputation/Scores.antt =====
-- The scores of internal/reputation after any calls.
use peerclaw_server.Prelude.{
  ℕ, suc, ◌≡◌, refl, inl, inr, String, some, List, [], ◌∷◌, Bool, true, false, Env, arith, All,
  Option-cases, Bool-cases,
}
use peerclaw_server.Prelude.Table.{find?, update, All-update}
use peerclaw_server.Reputation.Floats.{Float64, IsUnit, IsFloat64}
use peerclaw_server.Reputation.Store as Store
use peerclaw_server.Reputation.Store.{Event, Agent, Db}
use peerclaw_server.Reputation.Engine.{
  EventConfig, Engine, current, new_score, record_known, record_event, set_verified, unset_verified,
}

-- The decay factor is in [0, 1], and so are the values of the events.
pub record IsConfigured (f : Float64) (engine : Engine f) : Type 0 where
  pub alpha : IsUnit f engine.alpha
  pub values :
      (kind : String) (cfg : EventConfig f)
      → engine.event_configs kind ≡ some cfg
      → IsUnit f cfg.normalized_value

pub data Call (f : Float64) : Type 0 where
  records : Env → String → String → String → Call f
  verifies : Bool → ℕ → Env → String → Call f
  unverifies : Bool → String → Call f

unfoldable pub step : (f : Float64) → Engine f → Db f → Call f → Db f
step f engine db (records env i kind metadata) = (record_event f engine env i kind metadata db).0
step f engine db (verifies up now env i) = (set_verified f engine up now env i db).0
step f engine db (unverifies up i) = (unset_verified f up i db).0

unfoldable pub run_scores : (f : Float64) → Engine f → Db f → List (Call f) → Db f
unfolding step
run_scores f engine db [] = db
run_scores f engine db (c ∷ cs) = run_scores f engine (step f engine db c) cs

module _ (f : Float64) where
  -- Every agent's score is in [0, 1].
  abbrev pub AreUnits : List (Agent f) → Type 0
  AreUnits agents = All (λ a. IsUnit f a.score) agents

  found-IsUnit :
      (p : Agent f → Bool) (agents : List (Agent f)) (a : Agent f)
      → AreUnits agents
      → find? p agents ≡ some a
      → IsUnit f a.score
  unfolding find?
  found-IsUnit p [] a h e = ground arith
  found-IsUnit p (x ∷ xs) a h e = elim (Bool-cases (p x)) [
    | inl y ↦ ground (arith, h.0, e, y)
    | inr n ↦ found-IsUnit p xs a h.1 (ground (arith, e, n))
  ]

  module _ (laws : IsFloat64 f) (engine : Engine f) (set : IsConfigured f engine) where
    new_score-IsUnit :
        (kind : String) (cfg : EventConfig f) (old : f.Carrier)
        → engine.event_configs kind ≡ some cfg
        → IsUnit f old
        → IsUnit f (new_score f engine cfg old)
    unfolding new_score
    new_score-IsUnit kind cfg old e h =
        laws.clamps
          (f.plus (f.times engine.alpha cfg.normalized_value)
            (f.times (f.minus f.one_score engine.alpha) old))
          (laws.adds engine.alpha cfg.normalized_value (f.minus f.one_score engine.alpha) old
            set.alpha (set.values kind cfg e) (laws.complements engine.alpha set.alpha) h)

    current-IsUnit :
        (up : Bool) (i : String) (db : Db f)
        → AreUnits db.agents
        → IsUnit f (current f (Store.get_score f up i db)).0
    unfolding current Store.get_score
    current-IsUnit up i db h = elim (Bool-cases up) [
      | inr d ↦ rw d laws.half_IsUnit
      | inl u ↦ elim (Option-cases (find? (Store.has_id f i) db.agents)) [
        | inl n ↦ rw (u, n) laws.half_IsUnit
        | inr (a, e) ↦ rw (u, e) (found-IsUnit (Store.has_id f i) db.agents a h e)
      ]
    ]

    record_known-AreUnits :
        (env : Env) (i kind metadata : String) (cfg : EventConfig f) (old : f.Carrier) (n : ℕ)
        (db : Db f)
        → IsUnit f (new_score f engine cfg old)
        → AreUnits db.agents
        → AreUnits (record_known f engine env i kind metadata cfg (old, n) db).0.agents
    unfolding record_known
    record_known-AreUnits env i kind metadata cfg old n db unit h = elim (Bool-cases (env.up 1)) [
      | inr d ↦ rw d h
      | inl u ↦ elim (Bool-cases (env.up 2)) [
        | inr d ↦ rw (u, d) h
        | inl w ↦
            rw (u, w)
              (All-update (λ a. IsUnit f a.score) (Store.has_id f i)
                (Store.set_score f (new_score f engine cfg old) (suc n)) (λ a m g. unit) db.agents
                h)
      ]
    ]

    record_event-AreUnits :
        (env : Env) (i kind metadata : String) (db : Db f)
        → AreUnits db.agents
        → AreUnits (record_event f engine env i kind metadata db).0.agents
    unfolding record_event
    record_event-AreUnits env i kind metadata db h =
        elim (Option-cases (engine.event_configs kind)) [
          | inl n ↦ rw n h
          | inr (cfg, e) ↦
              let old = current f (Store.get_score f (env.up 0) i db) in
              rw e (
                record_known-AreUnits env i kind metadata cfg old.0 old.1 db
                  (new_score-IsUnit kind cfg old.0 e (current-IsUnit (env.up 0) i db h)) h)
        ]

    step-AreUnits :
        (db : Db f) (c : Call f) → AreUnits db.agents → AreUnits (step f engine db c).agents
    unfolding step set_verified unset_verified
    step-AreUnits db (records env i kind metadata) h =
        record_event-AreUnits env i kind metadata db h
    step-AreUnits db (verifies up now env i) h = elim (Bool-cases up) [
      | inr d ↦ rw d h
      | inl u ↦ rw u (
          record_event-AreUnits env i "verification_pass" "" _ (
            All-update (λ a. IsUnit f a.score) (Store.has_id f i) (Store.set_verified_at f now)
              (λ a m g. g) db.agents h))
    ]
    step-AreUnits db (unverifies up i) h = elim (Bool-cases up) [
      | inr d ↦ rw d h
      | inl u ↦ rw u (
          All-update (λ a. IsUnit f a.score) (Store.has_id f i) (Store.clear_verified f)
            (λ a m g. g) db.agents h)
    ]

-- From tables whose scores are in [0, 1], every score is in [0, 1] after any calls, whatever the driver
-- does, for an engine whose decay factor and event values are in [0, 1]. The floats are taken to keep
-- the laws of IsFloat64.
pub run_scores-AreUnits :
    (f : Float64) (engine : Engine f) (db : Db f) (cs : List (Call f))
    → IsFloat64 f
    → IsConfigured f engine
    → AreUnits f db.agents
    → AreUnits f (run_scores f engine db cs).agents
unfolding run_scores
run_scores-AreUnits f engine db [] laws set h = h
run_scores-AreUnits f engine db (c ∷ cs) laws set h =
    run_scores-AreUnits f engine (step f engine db c) cs laws set
      (step-AreUnits f laws engine set db c h)

-- Where GetScore fails and the other statements run, RecordEvent starts again from the default score
-- and a count of 0: an agent of any score and count has the count 1 after it.
pub record_event_resets :
    (f : Float64) (engine : Engine f) (env : Env) (i kind metadata : String) (cfg : EventConfig f)
    (db : Db f)
    → engine.event_configs kind ≡ some cfg
    → env.up 0 ≡ false
    → env.up 1 ≡ true
    → env.up 2 ≡ true
    → (record_event f engine env i kind metadata db).0.agents
      ≡ update
          (Store.has_id f i)
          (Store.set_score f (new_score f engine cfg f.half_score) 1)
          db.agents
unfolding record_event
record_event_resets f engine env i kind metadata cfg db e d u w = rw (e, d, u, w) refl
