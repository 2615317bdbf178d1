-- ===== src/Reputation/Engine.antt =====
-- internal/reputation/engine.go. A call returns the tables that it leaves and its error, if any.
use peerclaw_server.Prelude.{
  ℕ, suc, String, Option, none, some, List, Bool, Result, ok, err, StoreError, Env,
}
use peerclaw_server.Reputation.Floats.{Float64}
use peerclaw_server.Reputation.Store as Store
use peerclaw_server.Reputation.Store.{Event, Agent, Db}

module _ (f : Float64) where
  pub record EventConfig : Type 0 where
    pub weight : f.Carrier
    pub normalized_value : f.Carrier

  -- The configuration that NewEngineWithConfig leaves in the engine; the map of the events is a function.
  pub record Engine : Type 0 where
    pub alpha : f.Carrier
    pub event_configs : String → Option EventConfig

  -- The score and count that RecordEvent goes on from: the default where GetScore fails.
  unfoldable pub current : Result StoreError (f.Carrier × ℕ) → f.Carrier × ℕ
  current (ok s) = s
  current (err e) = (f.half_score, 0)

  -- The update of the moving average, clamped to [0, 1].
  unfoldable pub new_score : Engine → EventConfig → f.Carrier → f.Carrier
  new_score engine cfg old = f.max f.zero_score (
      f.min f.one_score (
        f.plus (f.times engine.alpha cfg.normalized_value)
          (f.times (f.minus f.one_score engine.alpha) old)))

  unfoldable pub updated : Db f → Result StoreError (Db f) → Db f × Option StoreError
  updated db (ok db') = (db', none)
  updated db (err e) = (db, some e)

  unfoldable pub inserted :
      Env → String → f.Carrier → ℕ → Db f → Result StoreError (Db f) → Db f × Option StoreError
  unfolding updated Store.update_agent_reputation
  inserted env i score n db (err e) = (db, some e)
  inserted env i score n db (ok db') =
      updated db' (Store.update_agent_reputation f (env.up 2) i score n db')

  unfoldable pub record_known :
      Engine
      → Env
      → String
      → String
      → String
      → EventConfig
      → f.Carrier × ℕ
      → Db f
      → Db f × Option StoreError
  unfolding inserted new_score Store.insert_event
  record_known engine env i kind metadata cfg (old, n) db =
      inserted env i (new_score engine cfg old) (suc n) db (
        Store.insert_event f (env.up 1)
          (record {
            agent_id = i;
            event_type = kind;
            weight = cfg.weight;
            score_after = new_score engine cfg old;
            metadata = metadata;
            created_at = env.now 0;
          })
          db)

  unfoldable pub record_configured :
      Engine → Env → String → String → String → Option EventConfig → Db f → Db f × Option StoreError
  unfolding record_known current Store.get_score
  record_configured engine env i kind metadata none db = (db, none)
  record_configured engine env i kind metadata (some cfg) db =
      record_known engine env i kind metadata cfg (current (Store.get_score f (env.up 0) i db)) db

  unfoldable pub record_event :
      Engine → Env → String → String → String → Db f → Db f × Option StoreError
  unfolding record_configured
  record_event engine env i kind metadata db =
      record_configured engine env i kind metadata (engine.event_configs kind) db

  unfoldable pub get_score : Bool → String → Db f → f.Carrier
  unfolding current Store.get_score
  get_score up i db = (current (Store.get_score f up i db)).0

  unfoldable pub get_history :
      (ℕ → List (Event f) → List (Event f))
      → Bool
      → String
      → ℕ
      → Db f
      → Result StoreError (List (Event f))
  unfolding Store.list_events
  get_history order up i limit db =
      Store.list_events f order up i (Store.limit_or_default f limit) db

  unfoldable pub verified_first :
      Engine → Env → String → Db f → Result StoreError (Db f) → Db f × Option StoreError
  unfolding record_event
  verified_first engine env i db (err e) = (db, some e)
  verified_first engine env i db (ok db') = record_event engine env i "verification_pass" "" db'

  unfoldable pub set_verified : Engine → Bool → ℕ → Env → String → Db f → Db f × Option StoreError
  unfolding verified_first Store.set_agent_verified
  set_verified engine up now env i db =
      verified_first engine env i db (Store.set_agent_verified f up now i db)

  unfoldable pub unset_verified : Bool → String → Db f → Db f × Option StoreError
  unfolding updated Store.unset_agent_verified
  unset_verified up i db = updated db (Store.unset_agent_verified f up i db)

  unfoldable pub is_verified : Bool → String → Db f → Result StoreError (Bool × Option ℕ)
  unfolding Store.is_agent_verified
  is_verified up i db = Store.is_agent_verified f up i db
