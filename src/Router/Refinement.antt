-- ===== src/Router/Refinement.antt =====
-- The table of internal/router after any calls, and what it then holds.
use peerclaw_server.Prelude.{
  ℕ, ◌≤◌, ◌≡◌, refl, inl, inr, String, Option, none, some, List, [], ◌∷◌, ◌++◌, Bool, ◌&&◌, ◌==◌,
  if◌then◌else◌, not, eq_refl, arith, eq_iff, Option-cases, Bool-cases, ap, ◌∙◌,
}
use peerclaw_server.Prelude.Maps.{get, get-put, get-del}
use peerclaw_server.Prelude.Table.{count, count-snoc, count_of_find?-none}
use peerclaw_server.Router.Table.{
  RouteEntry, State, same_key, replace, store_route, add_route, remove_route, get_routes,
}
use peerclaw_server.Router.Routes.{lookup, add_route-lookup, replace-none}

pub data Call : Type 0 where
  adds : ℕ → RouteEntry → Call
  removes : ℕ → String → Call

unfoldable pub step : State → Call → State
step t (adds now entry) = add_route now entry t
step t (removes now target) = remove_route now target t

unfoldable pub run_routes : State → List Call → State
unfolding step
run_routes t [] = t
run_routes t (c ∷ cs) = run_routes (step t c) cs

-- The latest route of a source and a protocol to a target that was added and not removed since.
unfoldable pub latest : String → RouteEntry → Option RouteEntry → List Call → Option RouteEntry
latest target k o [] = o
latest target k o (adds now entry ∷ cs) =
    latest target k
      (if entry.target_id == target && same_key k entry
        then some (record entry { updated_at = now })
        else o)
      cs
latest target k o (removes now gone ∷ cs) = latest target k (if gone == target then none else o) cs

-- After any calls the table answers as the map from target, source and protocol to the latest route.
pub run_routes-latest :
    (target : String) (k : RouteEntry) (t : State) (cs : List Call)
    → lookup target k (run_routes t cs) ≡ latest target k (lookup target k t) cs
unfolding run_routes latest
run_routes-latest target k t [] = refl
run_routes-latest target k t (adds now entry ∷ cs) =
    run_routes-latest target k (add_route now entry t) cs
    ∙ ap (λ o. latest target k o cs) (add_route-lookup now entry k t target "").0
run_routes-latest target k t (removes now gone ∷ cs) =
    run_routes-latest target k (remove_route now gone t) cs
    ∙ ap (λ o. latest target k o cs) (add_route-lookup now k k t target gone).1

abbrev pub foreign : String → RouteEntry → Bool
foreign target r = not (r.target_id == target)

-- A source and a protocol stand in one route to a target at most, and every route stands under its
-- target.
pub record IsValid (t : State) : Type 0 where
  pub unique : (target : String) (k : RouteEntry) → count (same_key k) (get_routes target t) ≤ 1
  pub targets : (target : String) → count (foreign target) (get_routes target t) ≡ 0

replace-count :
    (e k : RouteEntry) (rs rs' : List RouteEntry)
    → replace e rs ≡ some rs'
    → count (same_key k) rs' ≡ count (same_key k) rs
unfolding replace count
replace-count e k [] rs' h = ground arith
replace-count e k (r ∷ rs) rs' h = elim (Bool-cases (same_key e r)) [
  | inl b ↦ ground (arith, h, eq_iff r.source_id e.source_id, eq_iff r.protocol e.protocol)
  | inr b ↦ elim (Option-cases (replace e rs)) [
    | inl n ↦ ground (arith, h)
    | inr (rs2, f) ↦ ground (arith, h, replace-count e k rs rs2 f)
  ]
]

append-count :
    (e k : RouteEntry) (rs : List RouteEntry)
    → replace e rs ≡ none
    → count (same_key k) rs ≤ 1
    → count (same_key k) (rs ++ e ∷ []) ≤ 1
append-count e k rs h u = elim (Bool-cases (same_key k e)) [
  | inl b ↦ ground (
    arith,
    count-snoc (same_key k) rs e,
    count_of_find?-none (same_key k) rs (replace-none e k rs b h),
    b,
  )
  | inr b ↦ ground (arith, u, count-snoc (same_key k) rs e)
]

replace-foreign :
    (e : RouteEntry) (rs rs' : List RouteEntry)
    → replace e rs ≡ some rs'
    → count (foreign e.target_id) rs' ≤ count (foreign e.target_id) rs
unfolding replace count
replace-foreign e [] rs' h = ground arith
replace-foreign e (r ∷ rs) rs' h = elim (Bool-cases (same_key e r)) [
  | inl b ↦ ground (arith, h, eq_refl e.target_id)
  | inr b ↦ elim (Option-cases (replace e rs)) [
    | inl n ↦ ground (arith, h)
    | inr (rs2, f) ↦ ground (arith, h, replace-foreign e rs rs2 f)
  ]
]

-- The routes that a call of AddRoute stores under its target.
stored : (e : RouteEntry) → List RouteEntry → Option (List RouteEntry) → List RouteEntry
stored e rs none = rs ++ e ∷ []
stored e rs (some rs') = rs'

get-store_route :
    (now : ℕ) (e : RouteEntry) (t : State) (target : String) (rs : List RouteEntry)
    (o : Option (List RouteEntry))
    → get_routes target (store_route now e t rs o)
      ≡ (if e.target_id == target then stored e rs o else get_routes target t)
unfolding store_route get_routes stored
get-store_route now e t target rs none =
    ground (arith, get-put target e.target_id (rs ++ e ∷ []) t.routes)
get-store_route now e t target rs (some rs') =
    ground (arith, get-put target e.target_id rs' t.routes)

stored-count :
    (e k : RouteEntry) (rs : List RouteEntry)
    → count (same_key k) rs ≤ 1
    → count (same_key k) (stored e rs (replace e rs)) ≤ 1
unfolding stored
stored-count e k rs u = elim (Option-cases (replace e rs)) [
  | inl n ↦ ground (arith, append-count e k rs n u)
  | inr (rs2, f) ↦ ground (arith, replace-count e k rs rs2 f)
]

stored-foreign :
    (e : RouteEntry) (rs : List RouteEntry)
    → count (foreign e.target_id) rs ≡ 0
    → count (foreign e.target_id) (stored e rs (replace e rs)) ≡ 0
unfolding stored
stored-foreign e rs z = elim (Option-cases (replace e rs)) [
  | inl n ↦ ground (arith, count-snoc (foreign e.target_id) rs e, eq_refl e.target_id)
  | inr (rs2, f) ↦ ground (arith, replace-foreign e rs rs2 f)
]

get-add_route :
    (now : ℕ) (entry : RouteEntry) (t : State) (target : String)
    → get_routes target (add_route now entry t) ≡ (
        if entry.target_id == target
        then stored
            (record entry { updated_at = now })
            (get_routes entry.target_id t)
            (replace (record entry { updated_at = now }) (get_routes entry.target_id t))
        else get_routes target t)
unfolding add_route get_routes
get-add_route now entry t target =
    get-store_route now (record entry { updated_at = now }) t target (get_routes entry.target_id t)
      (replace (record entry { updated_at = now }) (get_routes entry.target_id t))

add_route-IsValid :
    (now : ℕ) (entry : RouteEntry) (t : State) → IsValid t → IsValid (add_route now entry t)
add_route-IsValid now entry t v = record {
  unique = λ target k. ground (
    arith,
    v.unique target k,
    stored-count e k rs (v.unique e.target_id k),
    get-add_route now entry t target,
  );
  targets = λ target. ground (
    arith,
    v.targets target,
    stored-foreign e rs (v.targets e.target_id),
    get-add_route now entry t target,
    eq_iff e.target_id target,
  );
}
  where
    e : RouteEntry
    e = record entry { updated_at = now }

    rs : List RouteEntry
    rs = get_routes entry.target_id t

remove_route-IsValid :
    (now : ℕ) (gone : String) (t : State) → IsValid t → IsValid (remove_route now gone t)
unfolding remove_route get_routes
remove_route-IsValid now gone t v = elim (Option-cases (get gone t.routes)) [
  | inl n ↦ record {
    unique = λ target k. ground (arith, v.unique target k);
    targets = λ target. ground (arith, v.targets target);
  }
  | inr (rs, f) ↦ record {
    unique = λ target k.
        ground (arith, v.unique target k, get-del target gone t.routes, nothing (same_key k));
    targets = λ target.
        ground (arith, v.targets target, get-del target gone t.routes, nothing (foreign target));
  }
]
  where
    nothing : (p : RouteEntry → Bool) → count p [] ≡ 0
    nothing p = unfold count in refl

-- After any calls from a valid table, the empty one for instance, a source and a protocol stand in one
-- route to a target at most, and every route stands under its own target.
pub run_routes-IsValid : (t : State) (cs : List Call) → IsValid t → IsValid (run_routes t cs)
unfolding run_routes
run_routes-IsValid t [] v = v
run_routes-IsValid t (adds now entry ∷ cs) v =
    run_routes-IsValid (add_route now entry t) cs (add_route-IsValid now entry t v)
run_routes-IsValid t (removes now target ∷ cs) v =
    run_routes-IsValid (remove_route now target t) cs (remove_route-IsValid now target t v)
