-- ===== src/Review/Examples.antt =====
-- Runs of internal/review, and its theorems at them.
use peerclaw_server.Prelude.{
  ℕ, ◌+◌, ◌-◌, ◌*◌, ◌/◌, ◌≤◌, ◌≡◌, refl, String, none, some, [], ◌∷◌, true, false, ◌==◌, ◌&&◌,
  nat_eq, List, eq_iff, leb, if◌then◌else◌, ok, Env, second, arith,
}
use peerclaw_server.Prelude.Table.{count}
use peerclaw_server.Reputation.Floats.{Float64}
use peerclaw_server.Reputation.Engine.{Engine, EventConfig}
use peerclaw_server.Review.Store.{Review, is_by, is_about, get_review}
use peerclaw_server.Review.Service.{State, submit_review}
use peerclaw_server.Review.Invariant.{
  IsValid, Call, step, submits, deletes, run_reviews, run_reviews-IsValid,
}
use peerclaw_server.Review.Latest.{said, submit_review-get_review}
use peerclaw_server.Review.Reports.{AbuseReport, get_report}
use peerclaw_server.Review.Pending.{files, marks, prunes, run_reports, get_report-pending}
use peerclaw_server.Review.Summary.{ReviewSummary, get_review_summary}
use peerclaw_server.Review.Distribution.{at, get_review_summary-distribution}
use peerclaw_server.Review.Repeats.{Submission, praises, resubmit, resubmit-counted}

-- Hundredths.
abbrev hundredths : Float64
hundredths = record {
  Carrier = ℕ;
  zero_score = 0;
  one_score = 100;
  half_score = 50;
  plus = λ a b. a + b;
  minus = λ a b. a - b;
  times = λ a b. a * b / 100;
  max = λ a b. if leb a b then b else a;
  min = λ a b. if leb a b then a else b;
  at_most = leb;
  is_nan = λ a. false;
}

abbrev positive : EventConfig hundredths
positive = record { weight = 40; normalized_value = 70 }

abbrev engine : Engine hundredths
engine = record {
  alpha = 10;
  event_configs = λ kind. if kind == "review_positive" then some positive else none;
}

abbrev env : String → ℕ → Env
env id t = record { up = λ k. true; uuid = λ k. id; now = λ k. t * second }

abbrev alice_unreviewed : State hundredths
alice_unreviewed = record {
  reviews = [];
  reputation = record {
    events = [];
    agents =
        record { id = "alice"; score = 50; event_count = 0; verified = false; verified_at = none }
        ∷ [];
  };
}

alice_unreviewed-IsValid : IsValid alice_unreviewed.reviews
unfolding count
alice_unreviewed-IsValid = record {
  ids = λ i. omega arith;
  pairs = λ a u. omega arith;
  ratings = tt;
}

-- u1 reviews alice.
abbrev reviewed : State hundredths
unfolding submit_review
reviewed =
    (submit_review hundredths (some engine) (env "r1" 1) (env "" 1) "alice" "u1" 2 "slow"
      alice_unreviewed).0

abbrev good : Review
good = record {
  id = "r2";
  agent_id = "alice";
  user_id = "u1";
  rating = 5;
  comment = "good";
  created_at = 2 * second;
  updated_at = 2 * second;
}

changed :
    (submit_review hundredths
      (some engine)
      (env "r2" 2)
      (env "" 2)
      "alice"
      "u1"
      5
      "good"
      reviewed).1
    ≡ ok good
unfolding submit_review
changed = refl

run_reviews-IsValid_example :
    IsValid
      (run_reviews hundredths alice_unreviewed (
        submits (some engine) (env "r1" 1) (env "" 1) "alice" "u1" 5 "good"
        ∷ submits none (env "r1" 2) (env "" 2) "alice" "u2" 5 "same identifier"
        ∷ submits none (env "r3" 3) (env "" 3) "alice" "u1" 1 "bad"
        ∷ deletes true "alice" "u2"
        ∷ [])).reviews
run_reviews-IsValid_example =
    run_reviews-IsValid hundredths alice_unreviewed
      (submits (some engine) (env "r1" 1) (env "" 1) "alice" "u1" 5 "good"
        ∷ submits none (env "r1" 2) (env "" 2) "alice" "u2" 5 "same identifier"
        ∷ submits none (env "r3" 3) (env "" 3) "alice" "u1" 1 "bad"
        ∷ deletes true "alice" "u2"
        ∷ [])
      alice_unreviewed-IsValid

submit_review-get_review_example :
    said (
      get_review true "alice" "u1"
        (submit_review hundredths
          (some engine)
          (env "r2" 2)
          (env "" 2)
          "alice"
          "u1"
          5
          "good"
          reviewed).0.reviews)
    ≡ some (5, "good")
submit_review-get_review_example =
    submit_review-get_review hundredths (some engine) (env "r2" 2) (env "" 2) "alice" "u1" 5 "good"
      reviewed good changed "alice" "u1"

abbrev third : ℕ → Submission hundredths
third t = record { env = env "r" t; events = env "" t; rating = 5; comment = "good" }

-- Three calls leave one review and three events.
three_events :
    (resubmit hundredths engine "alice" "u1" (third 1 ∷ third 2 ∷ third 3 ∷ []) alice_unreviewed).1
    ≡ 3
unfolding resubmit submit_review
three_events = refl

resubmit-counted_example :
    (praises hundredths "alice"
        (resubmit hundredths engine "alice" "u1"
          (third 1 ∷ third 2 ∷ [])
          alice_unreviewed).0.reputation
      ≡ praises hundredths "alice" alice_unreviewed.reputation
        + (resubmit hundredths engine "alice" "u1" (third 1 ∷ third 2 ∷ []) alice_unreviewed).1)
    × (count
          (is_by "alice" "u1")
          (resubmit hundredths engine "alice" "u1"
            (third 1 ∷ third 2 ∷ [])
            alice_unreviewed).0.reviews
        ≤ 1)
resubmit-counted_example =
    resubmit-counted hundredths engine positive "alice" "u1" (third 1 ∷ third 2 ∷ [])
      alice_unreviewed alice_unreviewed-IsValid refl ((refl, refl), ((refl, refl), tt))

abbrev spam : AbuseReport
spam = record {
  id = "a1";
  reporter_id = "u1";
  target_type = "agent";
  target_id = "alice";
  reason = "spam";
  details = "";
  status = "pending";
  created_at = second;
}

found : get_report true "a1" (spam ∷ []) ≡ ok spam
unfolding get_report
found = refl

get_report-pending_example :
    get_report true "a1" (
      run_reports (spam ∷ []) (
        files (env "a2" 2) "u2" "agent" "bob" "fraud" ""
        ∷ marks true "a2" "dismissed"
        ∷ prunes true (9 * second)
        ∷ []))
    ≡ ok spam
get_report-pending_example =
    get_report-pending (spam ∷ [])
      (files (env "a2" 2) "u2" "agent" "bob" "fraud" ""
        ∷ marks true "a2" "dismissed"
        ∷ prunes true (9 * second)
        ∷ [])
      "a1" spam found refl (tt, ((λ e. ground (arith, eq_iff "a2" "a1")), (tt, tt)))

-- Three reviews of alice, one of bob.
abbrev reviews : List (Call hundredths)
reviews =
    submits none (env "r1" 1) (env "" 1) "alice" "u1" 5 ""
    ∷ submits none (env "r2" 2) (env "" 2) "alice" "u2" 2 ""
    ∷ submits none (env "r3" 3) (env "" 3) "bob" "u1" 5 ""
    ∷ submits none (env "r4" 4) (env "" 4) "alice" "u3" 5 ""
    ∷ []

abbrev rated : List Review
unfolding run_reviews
rated = (run_reviews hundredths alice_unreviewed reviews).reviews

abbrev alice_summary : ReviewSummary ℕ
alice_summary = record {
  average_rating = 5;
  total_reviews = 3;
  distribution = 0 ∷ 1 ∷ 0 ∷ 0 ∷ 2 ∷ [];
}

summarized : get_review_summary (λ ns. at 0 ns) true true "alice" rated ≡ ok alice_summary
unfolding get_review_summary run_reviews step submit_review
summarized = refl

rated-IsValid : IsValid rated
unfolding rated run_reviews
rated-IsValid = run_reviews-IsValid hundredths alice_unreviewed reviews alice_unreviewed-IsValid

get_review_summary-distribution_example :
    (at 4 alice_summary.distribution ≡ count (λ r. is_about "alice" r && nat_eq r.rating 5) rated)
    × (at 0 alice_summary.distribution
          + at 1 alice_summary.distribution
          + at 2 alice_summary.distribution
          + at 3 alice_summary.distribution
          + at 4 alice_summary.distribution
        ≡ alice_summary.total_reviews)
get_review_summary-distribution_example =
    get_review_summary-distribution (λ ns. at 0 ns) true true "alice" rated alice_summary 4
      (omega arith) rated-IsValid summarized
