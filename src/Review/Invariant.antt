-- ===== src/Review/Invariant.antt =====
-- What holds of the table reviews after any calls of internal/review.
use peerclaw_server.Prelude.{
  ℕ, ◌≤◌, ◌≡◌, refl, inl, inr, String, Option, List, [], ◌∷◌, ◌++◌, Bool, true, false, ◌||◌, ◌==◌,
  ltb, ok, err, Env, arith, eq_iff, Bool-cases, OnOk, Result, StoreError, All, All-append, if_cases,
}
use peerclaw_server.Prelude.Table.{
  count, count-snoc, count-remove-le, count-update_same, count-update-le, count-update-split,
  count-split, All-remove, All-update, update,
}
use peerclaw_server.Reputation.Floats.{Float64}
use peerclaw_server.Reputation.Engine.{Engine}
use peerclaw_server.Review.Store as Store
use peerclaw_server.Review.Store.{
  Review, is_by, is_rating, to_row, revise, id_taken, write_review, upsert_review,
}
use peerclaw_server.Review.Service.{
  State, ReviewError, submit_review, submitted, delete_review, deleted,
}

abbrev pub has_id : String → Review → Bool
has_id i r = r.id == i

abbrev pub IsRated : Review → Type 0
IsRated r = is_rating r.rating ≡ true

-- Identifiers and pairs of an agent and a user stand in one row at most, and ratings are from 1 to 5.
pub record IsValid (rows : List Review) : Type 0 where
  pub ids : (i : String) → count (has_id i) rows ≤ 1
  pub pairs : (a u : String) → count (is_by a u) rows ≤ 1
  pub ratings : All IsRated rows

-- The row of a user's review, revised.
revised-ids :
    (r : Review) (rows : List Review) (i : String)
    → count (id_taken r) rows ≡ 0
    → IsValid rows
    → count (has_id i) (update (is_by r.agent_id r.user_id) (revise (to_row r)) rows) ≤ 1
revised-ids r rows i free v = elim (Bool-cases (r.id == i)) [
  | inl same ↦ ground (
    arith,
    eq_iff r.id i,
    count-update-split (has_id r.id) (is_by r.agent_id r.user_id) (revise (to_row r)) rows,
    v.pairs r.agent_id r.user_id,
  )
  | inr other ↦ omega (
    arith,
    count-update-le (has_id i) (is_by r.agent_id r.user_id) (revise (to_row r))
        (λ x m h. ground arith) rows,
    v.ids i,
  )
]

update-IsValid :
    (r : Review) (rows : List Review)
    → is_rating r.rating ≡ true
    → count (id_taken r) rows ≡ 0
    → IsValid rows
    → IsValid (update (is_by r.agent_id r.user_id) (revise (to_row r)) rows)
update-IsValid r rows rated free v = record {
  ids = λ i. revised-ids r rows i free v;
  pairs = λ a u. omega (
    arith,
    count-update_same (is_by a u) (is_by r.agent_id r.user_id) (revise (to_row r)) (λ x m. refl)
        rows,
    v.pairs a u,
  );
  ratings =
      All-update IsRated (is_by r.agent_id r.user_id) (revise (to_row r)) (λ x m h. rated) rows
        v.ratings;
}

snoc-IsValid :
    (r : Review) (rows : List Review)
    → is_rating r.rating ≡ true
    → count (id_taken r) rows ≡ 0
    → count (is_by r.agent_id r.user_id) rows ≡ 0
    → IsValid rows
    → IsValid (rows ++ to_row r ∷ [])
snoc-IsValid r rows rated free new v = record {
  ids = λ i. ground (
    arith,
    count-snoc (has_id i) rows (to_row r),
    v.ids i,
    eq_iff r.id i,
    count-split (has_id r.id) (is_by r.agent_id r.user_id) rows,
  );
  pairs = λ a u. ground (
    arith,
    count-snoc (is_by a u) rows (to_row r),
    v.pairs a u,
    eq_iff r.agent_id a,
    eq_iff r.user_id u,
  );
  ratings = All-append IsRated rows (to_row r ∷ []) v.ratings (rated, tt);
}

upsert_review-IsValid :
    (up : Bool) (r : Review) (rows : List Review)
    → IsValid rows
    → OnOk IsValid (upsert_review up r rows)
unfolding upsert_review write_review
upsert_review-IsValid false r rows v = tt
upsert_review-IsValid true r rows v =
    if_cases (OnOk IsValid) (is_rating r.rating)
      (λ rated.
        if_cases (OnOk IsValid) (ltb 0 (count (id_taken r) rows)) (λ t. tt)
          (λ free.
            if_cases IsValid (ltb 0 (count (is_by r.agent_id r.user_id) rows))
              (λ there. update-IsValid r rows rated (ground (arith, free)) v)
              (λ new. snoc-IsValid r rows rated (ground (arith, free)) (ground (arith, new)) v)))
      (λ bad. tt)

module _ (f : Float64) where
  pub data Call : Type 0 where
    submits : Option (Engine f) → Env → Env → String → String → ℕ → String → Call
    deletes : Bool → String → String → Call

  unfoldable pub step : State f → Call → State f
  unfolding submit_review delete_review
  step s (submits engine env events agent user rating comment) =
      (submit_review f engine env events agent user rating comment s).0
  step s (deletes up agent user) = (delete_review f up agent user s).0

  unfoldable pub run_reviews : State f → List Call → State f
  unfolding step
  run_reviews s [] = s
  run_reviews s (c ∷ cs) = run_reviews (step s c) cs

  submitted-IsValid :
      (engine : Option (Engine f)) (events : Env) (r : Review) (s : State f)
      (res : Result StoreError (List Review))
      → OnOk IsValid res
      → IsValid s.reviews
      → IsValid (submitted f engine events r s res).0.reviews
  unfolding submitted
  submitted-IsValid engine events r s (ok rows) h v = h
  submitted-IsValid engine events r s (err e) h v = v

  pub submit_review-IsValid :
      (engine : Option (Engine f)) (env events : Env) (agent user : String) (rating : ℕ)
      (comment : String) (s : State f)
      → IsValid s.reviews
      → IsValid (submit_review f engine env events agent user rating comment s).0.reviews
  unfolding submit_review
  submit_review-IsValid engine env events agent user rating comment s v =
      if_cases {A = State f × Result ReviewError Review} (λ x. IsValid x.0.reviews)
        (ltb rating 1 || ltb 5 rating) (λ bad. v)
        (λ good.
          submitted-IsValid engine events r s (upsert_review (env.up 0) r s.reviews)
            (upsert_review-IsValid (env.up 0) r s.reviews v) v)
    where
      r : Review
      r = record {
        id = env.uuid 0;
        agent_id = agent;
        user_id = user;
        rating = rating;
        comment = comment;
        created_at = env.now 0;
        updated_at = env.now 0;
      }

  delete_review-IsValid :
      (up : Bool) (agent user : String) (s : State f)
      → IsValid s.reviews
      → IsValid (delete_review f up agent user s).0.reviews
  unfolding delete_review deleted Store.delete_review
  delete_review-IsValid false agent user s v = v
  delete_review-IsValid true agent user s v =
      elim (Bool-cases (ltb 0 (count (is_by agent user) s.reviews))) [
        | inl there ↦ rw there (record {
          ids =
              λ i. omega (arith, count-remove-le (has_id i) (is_by agent user) s.reviews, v.ids i);
          pairs = λ a u.
              omega (arith, count-remove-le (is_by a u) (is_by agent user) s.reviews, v.pairs a u);
          ratings = All-remove IsRated (is_by agent user) s.reviews v.ratings;
        })
        | inr absent ↦ rw absent v
      ]

  step-IsValid : (s : State f) (c : Call) → IsValid s.reviews → IsValid (step s c).reviews
  unfolding step
  step-IsValid s (submits engine env events agent user rating comment) v =
      submit_review-IsValid engine env events agent user rating comment s v
  step-IsValid s (deletes up agent user) v = delete_review-IsValid up agent user s v

  -- After any calls of SubmitReview and DeleteReview on a valid table, in any order and whatever the
  -- driver does, row identifiers and pairs of an agent and a user stand in one row at most, and every
  -- rating is from 1 to 5.
  pub run_reviews-IsValid :
      (s : State f) (cs : List Call) → IsValid s.reviews → IsValid (run_reviews s cs).reviews
  unfolding run_reviews
  run_reviews-IsValid s [] v = v
  run_reviews-IsValid s (c ∷ cs) v = run_reviews-IsValid (step s c) cs (step-IsValid s c v)
