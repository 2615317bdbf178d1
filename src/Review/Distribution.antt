-- ===== src/Review/Distribution.antt =====
-- The distribution of GetReviewSummary.
use peerclaw_server.Prelude.{
  ℕ, zero, suc, ◌<◌, length, ◌+◌, ◌-◌, ◌≡◌, refl, String, List, [], ◌∷◌, Bool, true, false, ◌&&◌,
  nat_eq, if◌then◌else◌, ok, arith, All, OnOk, at_ok, if_cases,
}
use peerclaw_server.Prelude.Table.{count, select}
use peerclaw_server.Review.Store.{Review, is_about, is_rating}
use peerclaw_server.Review.Invariant.{IsValid, IsRated}
use peerclaw_server.Review.Summary.{
  ReviewSummary, tally, group_by_rating, set_at, fill, get_review_summary,
}

-- The element of an array.
abbrev pub at : ℕ → List ℕ → ℕ
at i [] = 0
at zero (x ∷ xs) = x
at (suc i) (x ∷ xs) = at i xs

-- The count that the groups give a rating.
abbrev size_of : ℕ → List (ℕ × ℕ) → ℕ
size_of k [] = 0
size_of k ((r, c) ∷ gs) = let rest = size_of k gs in if nat_eq r k then c else rest

abbrev has_group : ℕ → List (ℕ × ℕ) → Bool
has_group k [] = false
has_group k ((r, c) ∷ gs) = let rest = has_group k gs in if nat_eq r k then true else rest

-- No rating has two groups.
abbrev AreApart : List (ℕ × ℕ) → Type 0
AreApart [] = Unit
AreApart ((r, c) ∷ gs) = (has_group r gs ≡ false) × AreApart gs

size_of-tally :
    (k j : ℕ) (gs : List (ℕ × ℕ))
    → size_of k (tally j gs) ≡ (if nat_eq j k then size_of k gs + 1 else size_of k gs)
size_of-tally k j [] = ground arith
size_of-tally k j ((r, c) ∷ gs) = ground (arith, size_of-tally k j gs)

has_group-tally :
    (k j : ℕ) (gs : List (ℕ × ℕ)) → nat_eq j k ≡ false → has_group k (tally j gs) ≡ has_group k gs
has_group-tally k j [] h = ground arith
has_group-tally k j ((r, c) ∷ gs) h = ground (arith, has_group-tally k j gs h)

tally-AreApart : (j : ℕ) (gs : List (ℕ × ℕ)) → AreApart gs → AreApart (tally j gs)
tally-AreApart j [] a = (refl, tt)
tally-AreApart j ((r, c) ∷ gs) a =
    if_cases AreApart (nat_eq r j) (λ same. a)
      (λ other. (ground (arith, has_group-tally r j gs, a.0, other), tally-AreApart j gs a.1))

group_by_rating-AreApart : (rs : List Review) → AreApart (group_by_rating rs)
group_by_rating-AreApart [] = tt
group_by_rating-AreApart (r ∷ rs) =
    tally-AreApart r.rating (group_by_rating rs) (group_by_rating-AreApart rs)

abbrev pub has_rating : ℕ → Review → Bool
has_rating k r = nat_eq r.rating k

size_of-group_by_rating :
    (k : ℕ) (rs : List Review) → size_of k (group_by_rating rs) ≡ count (has_rating k) rs
unfolding count
size_of-group_by_rating k [] = refl
size_of-group_by_rating k (r ∷ rs) =
    ground (arith, size_of-group_by_rating k rs, size_of-tally k r.rating (group_by_rating rs))

size_of-absent : (k : ℕ) (gs : List (ℕ × ℕ)) → has_group k gs ≡ false → size_of k gs ≡ 0
size_of-absent k [] h = refl
size_of-absent k ((r, c) ∷ gs) h = ground (arith, size_of-absent k gs)

length-set_at : (i v : ℕ) (d : List ℕ) → length (set_at i v d) ≡ length d
length-set_at i v [] = refl
length-set_at zero v (x ∷ d) = refl
length-set_at (suc i) v (x ∷ d) = omega (arith, length-set_at i v d)

at-set_at_other : (i j v : ℕ) (d : List ℕ) → nat_eq i j ≡ false → at i (set_at j v d) ≡ at i d
at-set_at_other i j v [] h = refl
at-set_at_other zero zero v (x ∷ d) h = ground arith
at-set_at_other (suc i) zero v (x ∷ d) h = refl
at-set_at_other zero (suc j) v (x ∷ d) h = refl
at-set_at_other (suc i) (suc j) v (x ∷ d) h = at-set_at_other i j v d (ground arith)

at-set_at_own : (i v : ℕ) (d : List ℕ) → i < length d → at i (set_at i v d) ≡ v
at-set_at_own i v [] h = ground arith
at-set_at_own zero v (x ∷ d) h = refl
at-set_at_own (suc i) v (x ∷ d) h = at-set_at_own i v d (omega arith)

-- What one group does to the array.
abbrev put : ℕ → ℕ → List ℕ → List ℕ
put r c d = if is_rating r then set_at (r - 1) c d else d

length-put : (r c : ℕ) (d : List ℕ) → length (put r c d) ≡ length d
length-put r c d = ground (arith, length-set_at (r - 1) c d)

at-put_other : (i r c : ℕ) (d : List ℕ) → nat_eq r (suc i) ≡ false → at i (put r c d) ≡ at i d
at-put_other i r c d h = ground (arith, at-set_at_other i (r - 1) c d)

suc_minus_one : (i : ℕ) → suc i - 1 ≡ i
suc_minus_one i = omega arith

suc-is_rating : (i : ℕ) → i < 5 → is_rating (suc i) ≡ true
suc-is_rating i h = ground arith

at-put_own : (i c : ℕ) (d : List ℕ) → i < 5 → length d ≡ 5 → at i (put (suc i) c d) ≡ c
at-put_own i c d h l =
    rw (suc-is_rating i h, suc_minus_one i) (at-set_at_own i c d (omega (arith, h, l)))

at-fill :
    (i : ℕ) (gs : List (ℕ × ℕ)) (d : List ℕ)
    → i < 5
    → length d ≡ 5
    → AreApart gs
    → at i (fill gs d) ≡ (if has_group (suc i) gs then size_of (suc i) gs else at i d)
at-fill i [] d h l a = refl
at-fill i ((r, c) ∷ gs) d h l a = ground (
  arith,
  at-fill i gs (put r c d) h (omega (arith, length-put r c d, l)) a.1,
  at-put_other i r c d,
  at-put_own i c d h l,
  a.0,
)

abbrev empty : List ℕ
empty = 0 ∷ 0 ∷ 0 ∷ 0 ∷ 0 ∷ []

at-empty : (i : ℕ) → at i empty ≡ 0
at-empty zero = refl
at-empty (suc zero) = refl
at-empty (suc (suc zero)) = refl
at-empty (suc (suc (suc zero))) = refl
at-empty (suc (suc (suc (suc zero)))) = refl
at-empty (suc (suc (suc (suc (suc i))))) = refl

at-distribution :
    (i : ℕ) (rs : List Review)
    → i < 5
    → at i (fill (group_by_rating rs) empty) ≡ count (has_rating (suc i)) rs
at-distribution i rs h = ground (
  arith,
  at-fill i (group_by_rating rs) empty h refl (group_by_rating-AreApart rs),
  at-empty i,
  size_of-absent (suc i) (group_by_rating rs),
  size_of-group_by_rating (suc i) rs,
)

-- The stars of a review are one of five.
ratings-total :
    (agent : String) (rows : List Review)
    → All IsRated rows
    → count (has_rating 1) (select (is_about agent) rows)
        + count (has_rating 2) (select (is_about agent) rows)
        + count (has_rating 3) (select (is_about agent) rows)
        + count (has_rating 4) (select (is_about agent) rows)
        + count (has_rating 5) (select (is_about agent) rows)
      ≡ count (is_about agent) rows
unfolding count select
ratings-total agent [] h = refl
ratings-total agent (r ∷ rows) h = ground (arith, ratings-total agent rows h.1, h.0)

count-select :
    (k : ℕ) (agent : String) (rows : List Review)
    → count (has_rating k) (select (is_about agent) rows)
      ≡ count (λ r. is_about agent r && nat_eq r.rating k) rows
unfolding count select
count-select k agent [] = refl
count-select k agent (r ∷ rows) = ground (arith, count-select k agent rows)

-- The number at `i` stands for `i + 1` stars, and the five add up.
abbrev IsTally : {R : Type 0} → ℕ → String → List Review → ReviewSummary R → Type 0
IsTally i agent rows s =
    (at i s.distribution ≡ count (λ r. is_about agent r && nat_eq r.rating (suc i)) rows)
    × (at 0 s.distribution
          + at 1 s.distribution
          + at 2 s.distribution
          + at 3 s.distribution
          + at 4 s.distribution
        ≡ s.total_reviews)

get_review_summary-IsTally :
    {R : Type 0} (average : List ℕ → R) (averages groups : Bool) (agent : String)
    (rows : List Review) (i : ℕ)
    → i < 5
    → All IsRated rows
    → OnOk (IsTally i agent rows) (get_review_summary average averages groups agent rows)
unfolding get_review_summary
get_review_summary-IsTally average averages groups agent rows i h rated =
    if_cases (OnOk (IsTally i agent rows)) (averages && groups)
      (λ up. (
        omega (
          arith,
          at-distribution i (select (is_about agent) rows) h,
          count-select (suc i) agent rows,
        ),
        omega (
          arith,
          at-distribution 0 (select (is_about agent) rows) (omega arith),
          at-distribution 1 (select (is_about agent) rows) (omega arith),
          at-distribution 2 (select (is_about agent) rows) (omega arith),
          at-distribution 3 (select (is_about agent) rows) (omega arith),
          at-distribution 4 (select (is_about agent) rows) (omega arith),
          ratings-total agent rows rated,
        ),
      ))
      (λ down. tt)

-- On a valid table, a summary that GetReviewSummary returns has at each element of its distribution the
-- number of the agent's reviews with that many stars, and the five add up to its total.
pub get_review_summary-distribution :
    {R : Type 0} (average : List ℕ → R) (averages groups : Bool) (agent : String)
    (rows : List Review) (s : ReviewSummary R) (i : ℕ)
    → i < 5
    → IsValid rows
    → get_review_summary average averages groups agent rows ≡ ok s
    → (at i s.distribution ≡ count (λ r. is_about agent r && nat_eq r.rating (suc i)) rows)
      × (at 0 s.distribution
            + at 1 s.distribution
            + at 2 s.distribution
            + at 3 s.distribution
            + at 4 s.distribution
          ≡ s.total_reviews)
get_review_summary-distribution average averages groups agent rows s i h v e =
    at_ok (IsTally i agent rows) (get_review_summary average averages groups agent rows) s
      (get_review_summary-IsTally average averages groups agent rows i h v.ratings) e
