-- ===== src/Review/Latest.antt =====
-- What GetReview answers after SubmitReview.
use peerclaw_server.Prelude.{
  ℕ, ◌<◌, ◌≡◌, refl, inl, inr, String, Option, none, some, List, [], ◌∷◌, ◌++◌, Bool, true, false,
  ◌&&◌, ◌||◌, ◌==◌, ltb, if◌then◌else◌, ok, err, Env, arith, eq_iff, Bool-cases, OnOk, at_ok,
  Result, StoreError, if_cases, Option-cases,
}
use mathlib.Core.Option
use peerclaw_server.Prelude.Table.{count, find?, update}
use peerclaw_server.Reputation.Floats.{Float64}
use peerclaw_server.Reputation.Engine.{Engine}
use peerclaw_server.Review.Store as Store
use peerclaw_server.Review.Store.{
  Review, is_by, is_rating, to_row, revise, id_taken, write_review, upsert_review, get_review,
}
use peerclaw_server.Review.Service.{State, ReviewError, submit_review, submitted}

-- The rating and the comment of a found review.
abbrev pub content : Option Review → Option (ℕ × String)
content = Option.map (λ r. (r.rating, r.comment))

find?-snoc_new :
    (a u : String) (r : Review) (rows : List Review)
    → count (is_by r.agent_id r.user_id) rows ≡ 0
    → content (find? (is_by a u) (rows ++ to_row r ∷ []))
      ≡ (if is_by a u r then some (r.rating, r.comment) else content (find? (is_by a u) rows))
unfolding count find?
find?-snoc_new a u r [] h = ground arith
find?-snoc_new a u r (x ∷ rows) h = ground (
  arith,
  find?-snoc_new a u r rows,
  eq_iff r.agent_id a,
  eq_iff r.user_id u,
  eq_iff x.agent_id a,
  eq_iff x.user_id u,
)

find?-revised_own :
    (r : Review) (rows : List Review)
    → 0 < count (is_by r.agent_id r.user_id) rows
    → content (
        find?
          (is_by r.agent_id r.user_id)
          (update (is_by r.agent_id r.user_id) (revise (to_row r)) rows))
      ≡ some (r.rating, r.comment)
unfolding count find? update
find?-revised_own r [] h = ground arith
find?-revised_own r (x ∷ rows) h = ground (arith, find?-revised_own r rows)

find?-revised_other :
    (a u : String) (r : Review) (rows : List Review)
    → is_by a u r ≡ false
    → content (find? (is_by a u) (update (is_by r.agent_id r.user_id) (revise (to_row r)) rows))
      ≡ content (find? (is_by a u) rows)
unfolding find? update
find?-revised_other a u r [] h = refl
find?-revised_other a u r (x ∷ rows) h = ground (
  arith,
  find?-revised_other a u r rows,
  eq_iff r.agent_id a,
  eq_iff r.user_id u,
  eq_iff x.agent_id r.agent_id,
  eq_iff x.user_id r.user_id,
)

-- The rating and the comment that GetReview answers with.
abbrev pub said : Result StoreError Review → Option (ℕ × String)
said (ok r) = some (r.rating, r.comment)
said (err e) = none

said-get_review :
    (a u : String) (rows : List Review)
    → said (get_review true a u rows) ≡ content (find? (is_by a u) rows)
unfolding get_review Store.or_missing
said-get_review a u rows = elim (Option-cases (find? (is_by a u) rows)) [
  | inl absent ↦ rw absent refl
  | inr (r, found) ↦ rw found refl
]

-- What one call is to leave: the new text of one review, and the others as they were.
abbrev pub Revises : String → String → Review → List Review → List Review → Type 0
Revises a u r rows rows' =
    content (find? (is_by a u) rows')
    ≡ (if is_by a u r then some (r.rating, r.comment) else content (find? (is_by a u) rows))

write_review-Revises :
    (a u : String) (r : Review) (rows : List Review) → Revises a u r rows (write_review r rows)
unfolding write_review
write_review-Revises a u r rows =
    if_cases (Revises a u r rows) (ltb 0 (count (is_by r.agent_id r.user_id) rows))
      (λ there. elim (Bool-cases (is_by a u r)) [
        | inl own ↦
            ground (arith, find?-revised_own r rows, eq_iff r.agent_id a, eq_iff r.user_id u)
        | inr other ↦ ground (arith, find?-revised_other a u r rows other)
      ])
      (λ new. find?-snoc_new a u r rows (ground (arith, new)))

upsert_review-Revises :
    (a u : String) (up : Bool) (r : Review) (rows : List Review)
    → OnOk (Revises a u r rows) (upsert_review up r rows)
unfolding upsert_review
upsert_review-Revises a u false r rows = tt
upsert_review-Revises a u true r rows =
    if_cases (OnOk (Revises a u r rows)) (is_rating r.rating)
      (λ rated.
        if_cases (OnOk (Revises a u r rows)) (ltb 0 (count (id_taken r) rows)) (λ t. tt)
          (λ free. write_review-Revises a u r rows))
      (λ bad. tt)

module _ (f : Float64) where
  -- What a successful call leaves.
  abbrev Leaves : String → String → Review → State f → State f × Result ReviewError Review → Type 0
  Leaves a u r s x = OnOk (λ r'. Revises a u r s.reviews x.0.reviews) x.1

  submitted-Leaves :
      (a u : String) (engine : Option (Engine f)) (events : Env) (r : Review) (s : State f)
      (res : Result StoreError (List Review))
      → OnOk (Revises a u r s.reviews) res
      → Leaves a u r s (submitted f engine events r s res)
  unfolding submitted
  submitted-Leaves a u engine events r s (ok rows) h = h
  submitted-Leaves a u engine events r s (err e) h = tt

  submit_review-Leaves :
      (a u : String) (engine : Option (Engine f)) (env events : Env) (agent user : String)
      (rating : ℕ) (comment : String) (s : State f)
      → OnOk
          (λ r'.
            content (
              find?
                (is_by a u)
                (submit_review f engine env events agent user rating comment s).0.reviews)
            ≡ (if agent == a && user == u
                then some (rating, comment)
                else content (find? (is_by a u) s.reviews)))
          (submit_review f engine env events agent user rating comment s).1
  unfolding submit_review
  submit_review-Leaves a u engine env events agent user rating comment s =
      if_cases (Leaves a u r s) (ltb rating 1 || ltb 5 rating) (λ bad. tt)
        (λ good.
          submitted-Leaves a u engine events r s (upsert_review (env.up 0) r s.reviews)
            (upsert_review-Revises a u (env.up 0) r s.reviews))
    where
      r : Review
      r = record {
        id = env.uuid 0;
        agent_id = agent;
        user_id = user;
        rating = rating;
        comment = comment;
        created_at = env.now 0;
        updated_at = env.now 0;
      }

  -- After a successful SubmitReview, GetReview answers for its agent and user with the new rating and
  -- comment, and for every other agent and user with the rating and comment of before, if any.
  pub submit_review-get_review :
      (engine : Option (Engine f)) (env events : Env) (agent user : String) (rating : ℕ)
      (comment : String) (s : State f) (r : Review)
      → (submit_review f engine env events agent user rating comment s).1 ≡ ok r
      → (a u : String)
      → said (
          get_review true a u
            (submit_review f engine env events agent user rating comment s).0.reviews)
        ≡ (if agent == a && user == u
            then some (rating, comment)
            else said (get_review true a u s.reviews))
  submit_review-get_review engine env events agent user rating comment s r h a u =
      rw
        (
          said-get_review a u
              (submit_review f engine env events agent user rating comment s).0.reviews,
          said-get_review a u s.reviews,
        )
        (at_ok
          (λ r'.
            content (
              find? (is_by a u)
                (submit_review f engine env events agent user rating comment s).0.reviews)
            ≡ (if agent == a && user == u
                then some (rating, comment)
                else content (find? (is_by a u) s.reviews)))
          (submit_review f engine env events agent user rating comment s).1 r
          (submit_review-Leaves a u engine env events agent user rating comment s) h)
