-- ===== src/Reputation/Counts.antt =====
-- The event counts of internal/reputation against the events that are stored.
use peerclaw_server.Prelude.{
  ℕ, suc, ◌≤◌, ◌≡◌, inl, inr, String, some, List, [], ◌∷◌, ◌++◌, Bool, true, Env, arith, eq_iff,
  eq_refl, subst, All, All-map, Option-cases, Bool-cases, rfc3339,
}
use peerclaw_server.Prelude.Table.{find?, find?-holds, All-update, count, count-snoc}
use peerclaw_server.Reputation.Floats.{Float64}
use peerclaw_server.Reputation.Store as Store
use peerclaw_server.Reputation.Store.{Event, Agent, Db}
use peerclaw_server.Reputation.Engine.{
  EventConfig, Engine, current, new_score, record_known, record_event, set_verified, unset_verified,
}
use peerclaw_server.Reputation.Scores.{Call, records, verifies, unverifies, step, run_scores}

module _ (f : Float64) where
  -- An agent's count is at most the number of its events.
  abbrev pub Counted : List (Event f) → Agent f → Type 0
  Counted events a = a.event_count ≤ count (Store.is_of f a.id) events

  abbrev pub IsCounted : Db f → Type 0
  IsCounted db = All (Counted db.events) db.agents

  found-Counted :
      (events : List (Event f)) (p : Agent f → Bool) (agents : List (Agent f)) (a : Agent f)
      → All (Counted events) agents
      → find? p agents ≡ some a
      → Counted events a
  unfolding find?
  found-Counted events p [] a h e = ground arith
  found-Counted events p (x ∷ xs) a h e = elim (Bool-cases (p x)) [
    | inl y ↦ let same : x ≡ a = ground (arith, e, y) in subst (Counted events) same h.0
    | inr n ↦ found-Counted events p xs a h.1 (ground (arith, e, n))
  ]

  -- The count that RecordEvent goes on from is at most the number of the agent's events.
  current-count :
      (up : Bool) (i : String) (db : Db f)
      → IsCounted db
      → (current f (Store.get_score f up i db)).1 ≤ count (Store.is_of f i) db.events
  unfolding current Store.get_score
  current-count up i db h = elim (Bool-cases up) [
    | inr d ↦ rw d (omega arith)
    | inl u ↦ elim (Option-cases (find? (Store.has_id f i) db.agents)) [
      | inl n ↦ rw (u, n) (omega arith)
      | inr (a, e) ↦
          let same : a.id ≡ i = (eq_iff a.id i).0 (find?-holds (Store.has_id f i) db.agents a e) in
          rw (u, e)
            (subst (λ j. a.event_count ≤ count (Store.is_of f j) db.events) same
              (found-Counted db.events (Store.has_id f i) db.agents a h e))
    ]
  ]

  module _ (engine : Engine f) where
    record_known-IsCounted :
        (env : Env) (i kind metadata : String) (cfg : EventConfig f) (old : f.Carrier) (n : ℕ)
        (db : Db f)
        → n ≤ count (Store.is_of f i) db.events
        → IsCounted db
        → IsCounted (record_known f engine env i kind metadata cfg (old, n) db).0
    unfolding record_known
    record_known-IsCounted env i kind metadata cfg old n db le h = elim (Bool-cases (env.up 1)) [
      | inr d ↦ rw d h
      | inl u ↦ elim (Bool-cases (env.up 2)) [
        | inr d ↦ rw (u, d) kept
        | inl w ↦
            rw (u, w)
              (All-update (Counted (db.events ++ e ∷ [])) (Store.has_id f i)
                (Store.set_score f (new_score f engine cfg old) (suc n)) raised db.agents kept)
      ]
    ]
      where
        e : Event f
        e = record {
          agent_id = i;
          event_type = kind;
          weight = cfg.weight;
          score_after = new_score f engine cfg old;
          metadata = metadata;
          created_at = rfc3339 (env.now 0);
        }

        kept : All (Counted (db.events ++ e ∷ [])) db.agents
        kept =
            All-map (λ a g. omega (arith, g, count-snoc (Store.is_of f a.id) db.events e)) db.agents
              h

        raised :
            (a : Agent f)
            → Store.has_id f i a ≡ true
            → Counted (db.events ++ e ∷ []) a
            → suc n ≤ count (Store.is_of f a.id) (db.events ++ e ∷ [])
        raised a m g = ground (
          arith,
          le,
          eq_iff a.id i,
          eq_iff i a.id,
          eq_refl i,
          count-snoc (Store.is_of f i) db.events e,
        )

    record_event-IsCounted :
        (env : Env) (i kind metadata : String) (db : Db f)
        → IsCounted db
        → IsCounted (record_event f engine env i kind metadata db).0
    unfolding record_event
    record_event-IsCounted env i kind metadata db h =
        elim (Option-cases (engine.event_configs kind)) [
          | inl n ↦ rw n h
          | inr (cfg, e) ↦
              let old = current f (Store.get_score f (env.up 0) i db) in
              rw e (
                record_known-IsCounted env i kind metadata cfg old.0 old.1 db
                  (current-count (env.up 0) i db h) h)
        ]

    step-IsCounted : (db : Db f) (c : Call f) → IsCounted db → IsCounted (step f engine db c)
    unfolding step set_verified unset_verified
    step-IsCounted db (records env i kind metadata) h =
        record_event-IsCounted env i kind metadata db h
    step-IsCounted db (verifies up now env i) h = elim (Bool-cases up) [
      | inr d ↦ rw d h
      | inl u ↦ rw u (
          record_event-IsCounted env i "verification_pass" "" _ (
            All-update (Counted db.events) (Store.has_id f i) (Store.set_verified_at f now)
              (λ a m g. g) db.agents h))
    ]
    step-IsCounted db (unverifies up i) h = elim (Bool-cases up) [
      | inr d ↦ rw d h
      | inl u ↦ rw u (
          All-update (Counted db.events) (Store.has_id f i) (Store.clear_verified f) (λ a m g. g)
            db.agents h)
    ]

-- From tables where each agent's count is at most the number of its events, it is so after any calls,
-- whatever the driver does: no count is ever ahead of the events. Events are not pruned meanwhile.
pub run_scores-IsCounted :
    (f : Float64) (engine : Engine f) (db : Db f) (cs : List (Call f))
    → IsCounted f db
    → IsCounted f (run_scores f engine db cs)
unfolding run_scores
run_scores-IsCounted f engine db [] h = h
run_scores-IsCounted f engine db (c ∷ cs) h =
    run_scores-IsCounted f engine (step f engine db c) cs (step-IsCounted f engine db c h)
