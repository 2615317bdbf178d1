-- ===== src/Reputation/Store.antt =====
-- internal/reputation/sqlite.go and store.go: the table reputation_events and the columns of the table
-- agents that hold the scores. `ORDER BY created_at DESC LIMIT ?` is the argument
-- `order`, which is given the limit.
use peerclaw_server.Prelude.{
  ℕ, String, Option, none, some, List, [], ◌∷◌, ◌++◌, Bool, true, false, ◌==◌, leb, if◌then◌else◌,
  Result, ok, err, StoreError, driver, not_found, rfc3339,
}
use peerclaw_server.Prelude.Table.{find?, select, update}
use peerclaw_server.Reputation.Floats.{Float64}

module _ (f : Float64) where
  pub record Event : Type 0 where
    pub agent_id : String
    pub event_type : String
    pub weight : f.Carrier
    pub score_after : f.Carrier
    pub metadata : String
    pub created_at : ℕ

  pub record Agent : Type 0 where
    pub id : String
    pub score : f.Carrier
    pub event_count : ℕ
    pub verified : Bool
    pub verified_at : Option ℕ

  pub record Db : Type 0 where
    pub events : List Event
    pub agents : List Agent

  -- WHERE id = ?
  abbrev pub has_id : String → Agent → Bool
  has_id i a = a.id == i

  -- WHERE agent_id = ?
  abbrev pub is_of : String → Event → Bool
  is_of i e = e.agent_id == i

  unfoldable pub insert_event : Bool → Event → Db → Result StoreError Db
  insert_event up e db =
      if up
      then ok
          (record db { events = db.events ++ record e { created_at = rfc3339 e.created_at } ∷ [] })
      else err driver

  unfoldable pub score_of : Option Agent → Result StoreError (f.Carrier × ℕ)
  score_of none = err not_found
  score_of (some a) = ok (a.score, a.event_count)

  unfoldable pub get_score : Bool → String → Db → Result StoreError (f.Carrier × ℕ)
  unfolding score_of find?
  get_score up i db = if up then score_of (find? (has_id i) db.agents) else err driver

  -- A limit that is not positive is 0 here.
  abbrev pub limit_or_default : ℕ → ℕ
  limit_or_default limit = if leb limit 0 then 50 else limit

  unfoldable pub list_events :
      (ℕ → List Event → List Event) → Bool → String → ℕ → Db → Result StoreError (List Event)
  unfolding select
  list_events order up i limit db =
      if up then ok (order (limit_or_default limit) (select (is_of i) db.events)) else err driver

  abbrev pub set_score : f.Carrier → ℕ → Agent → Agent
  set_score score n a = record a { score = score; event_count = n }

  unfoldable pub update_agent_reputation : Bool → String → f.Carrier → ℕ → Db → Result StoreError Db
  unfolding update
  update_agent_reputation up i score n db =
      if up
      then ok (record db { agents = update (has_id i) (set_score score n) db.agents })
      else err driver

  abbrev pub set_verified_at : ℕ → Agent → Agent
  set_verified_at now a = record a { verified = true; verified_at = some (rfc3339 now) }

  unfoldable pub set_agent_verified : Bool → ℕ → String → Db → Result StoreError Db
  unfolding update
  set_agent_verified up now i db =
      if up
      then ok (record db { agents = update (has_id i) (set_verified_at now) db.agents })
      else err driver

  abbrev pub clear_verified : Agent → Agent
  clear_verified a = record a { verified = false; verified_at = none }

  unfoldable pub unset_agent_verified : Bool → String → Db → Result StoreError Db
  unfolding update
  unset_agent_verified up i db =
      if up
      then ok (record db { agents = update (has_id i) clear_verified db.agents })
      else err driver

  unfoldable pub verified_of : Option Agent → Result StoreError (Bool × Option ℕ)
  verified_of none = err not_found
  verified_of (some a) = ok (a.verified, a.verified_at)

  unfoldable pub is_agent_verified : Bool → String → Db → Result StoreError (Bool × Option ℕ)
  unfolding verified_of find?
  is_agent_verified up i db = if up then verified_of (find? (has_id i) db.agents) else err driver
