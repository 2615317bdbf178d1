-- ===== src/Review/Service.antt =====
-- internal/review/service.go: the reviews of users, with the engine of internal/reputation that
-- SubmitReview tells of them, if there is one.
use peerclaw_server.Prelude.{
  ℕ, String, Option, none, some, List, Bool, ◌||◌, ltb, leb, if◌then◌else◌, Result, ok, err,
  StoreError, Env,
}
use peerclaw_server.Reputation.Floats.{Float64}
use peerclaw_server.Reputation.Store.{Db}
use peerclaw_server.Reputation.Engine.{Engine, record_event}
use peerclaw_server.Review.Store as Store
use peerclaw_server.Review.Store.{Review}

pub data ReviewError : Type 0 where
  bad_rating : ReviewError
  store : StoreError → ReviewError

module _ (f : Float64) where
  -- The table of the reviews and those of the reputation.
  pub record State : Type 0 where
    pub reviews : List Review
    pub reputation : Db f

  -- The event that a rating is; an error of the engine is logged only.
  unfoldable pub told : Engine f → Env → String → ℕ → Db f → Db f
  unfolding record_event
  told engine env agent rating db =
      if leb 4 rating
      then (record_event f engine env agent "review_positive" "" db).0
      else if leb rating 2
      then (record_event f engine env agent "review_negative" "" db).0
      else db

  unfoldable pub tell : Option (Engine f) → Env → String → ℕ → Db f → Db f
  unfolding told
  tell none env agent rating db = db
  tell (some engine) env agent rating db = told engine env agent rating db

  unfoldable pub submitted :
      Option (Engine f)
      → Env
      → Review
      → State
      → Result StoreError (List Review)
      → State × Result ReviewError Review
  unfolding tell
  submitted engine events r s (err e) = (s, err (store e))
  submitted engine events r s (ok rows) = (
    record { reviews = rows; reputation = tell engine events r.agent_id r.rating s.reputation },
    ok r,
  )

  -- `env` is of SubmitReview itself, `events` of the engine's call.
  unfoldable pub submit_review :
      Option (Engine f)
      → Env
      → Env
      → String
      → String
      → ℕ
      → String
      → State
      → State × Result ReviewError Review
  unfolding submitted Store.upsert_review
  submit_review engine env events agent user rating comment s =
      if ltb rating 1 || ltb 5 rating
      then (s, err bad_rating)
      else submitted engine events r s (Store.upsert_review (env.up 0) r s.reviews)
    where
      r : Review
      r = record {
        id = env.uuid 0;
        agent_id = agent;
        user_id = user;
        rating = rating;
        comment = comment;
        created_at = env.now 0;
        updated_at = env.now 0;
      }

  unfoldable pub deleted : State → Result StoreError (List Review) → State × Option StoreError
  deleted s (err e) = (s, some e)
  deleted s (ok rows) = (record s { reviews = rows }, none)

  unfoldable pub delete_review : Bool → String → String → State → State × Option StoreError
  unfolding deleted Store.delete_review
  delete_review up agent user s = deleted s (Store.delete_review up agent user s.reviews)

  unfoldable pub list_reviews :
      (ℕ → ℕ → List Review → List Review)
      → Bool
      → Bool
      → String
      → ℕ
      → ℕ
      → State
      → Result StoreError (List Review × ℕ)
  unfolding Store.list_reviews
  list_reviews page counts up agent limit offset s =
      Store.list_reviews page counts up agent limit offset s.reviews
