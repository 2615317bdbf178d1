-- ===== src/Review/Summary.antt =====
-- GetReviewSummary of internal/review/sqlite.go. AVG is the argument `average`, of the ratings that it is
-- taken of; GROUP BY gives the groups in some order, here that of their last rows.
use peerclaw_server.Prelude.{
  ℕ, zero, suc, ◌+◌, ◌-◌, String, List, [], ◌∷◌, Bool, ◌&&◌, nat_eq, if◌then◌else◌, Result, ok, err,
  StoreError, driver,
}
use mathlib.Core.List
use peerclaw_server.Prelude.Table.{count, select}
use peerclaw_server.Review.Store.{Review, is_about, is_rating}

-- One more row of a rating.
abbrev pub tally : ℕ → List (ℕ × ℕ) → List (ℕ × ℕ)
tally k [] = (k, 1) ∷ []
tally k ((r, c) ∷ gs) =
    let rest = tally k gs in if nat_eq r k then (r, c + 1) ∷ gs else (r, c) ∷ rest

-- SELECT rating, COUNT(*) … GROUP BY rating
abbrev pub group_by_rating : List Review → List (ℕ × ℕ)
group_by_rating [] = []
group_by_rating (r ∷ rs) = tally r.rating (group_by_rating rs)

-- An assignment to an element of the array; the index is in range.
abbrev pub set_at : ℕ → ℕ → List ℕ → List ℕ
set_at i v [] = []
set_at zero v (x ∷ xs) = v ∷ xs
set_at (suc i) v (x ∷ xs) = x ∷ set_at i v xs

-- The loop over the groups.
abbrev pub fill : List (ℕ × ℕ) → List ℕ → List ℕ
fill [] d = d
fill ((r, c) ∷ gs) d = fill gs (if is_rating r then set_at (r - 1) c d else d)

pub record ReviewSummary (R : Type 0) : Type 0 where
  pub average_rating : R
  pub total_reviews : ℕ
  pub distribution : List ℕ

unfoldable pub get_review_summary :
    {R : Type 0}
    → (List ℕ → R)
    → Bool
    → Bool
    → String
    → List Review
    → Result StoreError (ReviewSummary R)
unfolding count select
get_review_summary average averages groups agent rows =
    if averages && groups
    then ok (record {
      average_rating = average (List.map (λ r. r.rating) (select (is_about agent) rows));
      total_reviews = count (is_about agent) rows;
      distribution = fill (group_by_rating (select (is_about agent) rows)) (0 ∷ 0 ∷ 0 ∷ 0 ∷ 0 ∷ []);
    })
    else err driver
