-- ===== src/Review/Repeats.antt =====
-- What SubmitReview tells the reputation engine when a user reviews an agent again and again.
use peerclaw_server.Prelude.{
  ℕ, ◌+◌, ◌≤◌, ◌≡◌, refl, eq_iff, String, some, List, [], ◌∷◌, ◌++◌, Bool, true, false, ◌&&◌, ◌||◌,
  ◌==◌, ltb, leb, ok, err, Env, arith, All, Result, StoreError, if_cases, rfc3339,
}
use peerclaw_server.Prelude.Table.{count, count-snoc}
use peerclaw_server.Reputation.Floats.{Float64}
use peerclaw_server.Reputation.Store.{Db, Event}
use peerclaw_server.Reputation.Store as Store
use peerclaw_server.Reputation.Engine.{
  Engine, EventConfig, record_event, record_configured, record_known, inserted, updated,
}
use peerclaw_server.Review.Store.{Review, is_by, upsert_review}
use peerclaw_server.Review.Service.{State, ReviewError, submit_review, submitted, tell, told}
use peerclaw_server.Review.Invariant.{IsValid, submit_review-IsValid}

module _ (f : Float64) where
  -- The events that a rating of 4 or 5 gives the agent.
  abbrev pub is_praise : String → Event f → Bool
  is_praise agent e = e.agent_id == agent && e.event_type == "review_positive"

  abbrev pub praises : String → Db f → ℕ
  unfolding count
  praises agent db = count (is_praise agent) db.events

  updated-events :
      (db : Db f) (up : Bool) (i : String) (score : f.Carrier) (n : ℕ)
      → (updated f db (Store.update_agent_reputation f up i score n db)).0.events ≡ db.events
  unfolding updated Store.update_agent_reputation
  updated-events db true i score n = refl
  updated-events db false i score n = refl

  inserted-praises :
      (env : Env) (agent : String) (score : f.Carrier) (n : ℕ) (e : Event f) (db : Db f)
      → is_praise agent e ≡ true
      → praises agent (inserted f env agent score n db (Store.insert_event f true e db)).0
        ≡ praises agent db + 1
  unfolding inserted Store.insert_event praises
  inserted-praises env agent score n e db h =
      rw
        (
          updated-events
              (record db {
                events = db.events ++ record e { created_at = rfc3339 e.created_at } ∷ [];
              })
              (env.up 2) agent score n,
          count-snoc (is_praise agent) db.events (record e { created_at = rfc3339 e.created_at }),
          h,
        )
        refl

  -- A rating of 4 or 5, which the driver has the engine write down, is one more event.
  tell-praises :
      (engine : Engine f) (cfg : EventConfig f) (env : Env) (agent : String) (rating : ℕ)
      (db : Db f)
      → engine.event_configs "review_positive" ≡ some cfg
      → env.up 1 ≡ true
      → leb 4 rating ≡ true
      → praises agent (tell f (some engine) env agent rating db) ≡ praises agent db + 1
  unfolding tell told record_event record_configured record_known
  tell-praises engine cfg env agent rating db known up high =
      rw (high, known, up)
        (inserted-praises env agent _ _ _ db (ground (arith, eq_iff agent agent)))

  -- A call of one user about one agent: what its two parts take from outside, and its text.
  pub record Submission : Type 0 where
    pub env : Env
    pub events : Env
    pub rating : ℕ
    pub comment : String

  -- A rating of 4 or 5 with the insertion of its event run.
  abbrev pub IsHeard : Submission → Type 0
  IsHeard x = (leb 4 x.rating ≡ true) × (x.events.up 1 ≡ true)

  abbrev pub accepted : Result ReviewError Review → ℕ
  accepted (ok r) = 1
  accepted (err e) = 0

  -- The state after the calls, and how many of them succeeded.
  unfoldable pub resubmit : Engine f → String → String → List Submission → State f → State f × ℕ
  resubmit engine agent user [] s = (s, 0)
  resubmit engine agent user (x ∷ xs) s =
      let r = submit_review f (some engine) x.env x.events agent user x.rating x.comment s in
      let rest = resubmit engine agent user xs r.0 in (rest.0, accepted r.1 + rest.1)

  -- One event more where the call succeeded, and none otherwise.
  abbrev Adds : String → State f → State f × Result ReviewError Review → Type 0
  Adds agent s x = praises agent x.0.reputation ≡ praises agent s.reputation + accepted x.1

  submitted-Adds :
      (engine : Engine f) (cfg : EventConfig f) (events : Env) (r : Review) (s : State f)
      (res : Result StoreError (List Review))
      → engine.event_configs "review_positive" ≡ some cfg
      → events.up 1 ≡ true
      → leb 4 r.rating ≡ true
      → Adds r.agent_id s (submitted f (some engine) events r s res)
  unfolding submitted
  submitted-Adds engine cfg events r s (ok rows) known up high =
      tell-praises engine cfg events r.agent_id r.rating s.reputation known up high
  submitted-Adds engine cfg events r s (err e) known up high = omega arith

  submit_review-Adds :
      (engine : Engine f) (cfg : EventConfig f) (x : Submission) (agent user : String) (s : State f)
      → engine.event_configs "review_positive" ≡ some cfg
      → IsHeard x
      → Adds agent s (submit_review f (some engine) x.env x.events agent user x.rating x.comment s)
  unfolding submit_review
  submit_review-Adds engine cfg x agent user s known heard =
      if_cases {A = State f × Result ReviewError Review} (Adds agent s)
        (ltb x.rating 1 || ltb 5 x.rating) (λ bad. omega arith)
        (λ good.
          submitted-Adds engine cfg x.events r s (upsert_review (x.env.up 0) r s.reviews) known
            heard.1 heard.0)
    where
      r : Review
      r = record {
        id = x.env.uuid 0;
        agent_id = agent;
        user_id = user;
        rating = x.rating;
        comment = x.comment;
        created_at = x.env.now 0;
        updated_at = x.env.now 0;
      }

  resubmit-praises :
      (engine : Engine f) (cfg : EventConfig f) (agent user : String) (xs : List Submission)
      (s : State f)
      → engine.event_configs "review_positive" ≡ some cfg
      → All IsHeard xs
      → praises agent (resubmit engine agent user xs s).0.reputation
        ≡ praises agent s.reputation + (resubmit engine agent user xs s).1
  unfolding resubmit
  resubmit-praises engine cfg agent user [] s known heard = omega arith
  resubmit-praises engine cfg agent user (x ∷ xs) s known heard = omega (
    arith,
    submit_review-Adds engine cfg x agent user s known heard.0,
    resubmit-praises engine cfg agent user xs
        (submit_review f (some engine) x.env x.events agent user x.rating x.comment s).0 known
        heard.1,
  )

  resubmit-IsValid :
      (engine : Engine f) (agent user : String) (xs : List Submission) (s : State f)
      → IsValid s.reviews
      → IsValid (resubmit engine agent user xs s).0.reviews
  unfolding resubmit
  resubmit-IsValid engine agent user [] s v = v
  resubmit-IsValid engine agent user (x ∷ xs) s v =
      resubmit-IsValid engine agent user xs
        (submit_review f (some engine) x.env x.events agent user x.rating x.comment s).0
        (submit_review-IsValid f (some engine) x.env x.events agent user x.rating x.comment s v)

  -- For an engine that knows the event review_positive, when one user rates one agent with 4 or 5 any
  -- number of times on a valid table, and the driver inserts the engine's events, every call that succeeds
  -- gives the agent one more such event, while the user's reviews of the agent stay one at most.
  pub resubmit-counted :
      (engine : Engine f) (cfg : EventConfig f) (agent user : String) (xs : List Submission)
      (s : State f)
      → IsValid s.reviews
      → engine.event_configs "review_positive" ≡ some cfg
      → All IsHeard xs
      → (praises agent (resubmit engine agent user xs s).0.reputation
          ≡ praises agent s.reputation + (resubmit engine agent user xs s).1)
        × (count (is_by agent user) (resubmit engine agent user xs s).0.reviews ≤ 1)
  resubmit-counted engine cfg agent user xs s v known heard = (
    resubmit-praises engine cfg agent user xs s known heard,
    (resubmit-IsValid engine agent user xs s v).pairs agent user,
  )
