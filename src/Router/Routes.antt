-- ===== src/Router/Routes.antt =====
-- The table of internal/router against a map from target, source and protocol to the latest route.
use peerclaw_server.Prelude.{
  ℕ, ◌≡◌, refl, inl, inr, String, Option, none, some, List, [], ◌∷◌, ◌++◌, true, ◌&&◌, ◌==◌,
  if◌then◌else◌, arith, eq_iff, Option-cases, Bool-cases,
}
use peerclaw_server.Prelude.Maps.{get, get-put, get-del}
use peerclaw_server.Prelude.Table.{find?, find?-snoc, find?-snoc_some}
use peerclaw_server.Router.Table.{
  RouteEntry, State, same_key, replace, store_route, add_route, remove_route, get_routes,
}

-- The route of a source and a protocol to a target.
abbrev pub lookup : String → RouteEntry → State → Option RouteEntry
lookup target k t = find? (same_key k) (get_routes target t)

replace-find? :
    (e k : RouteEntry) (rs rs' : List RouteEntry)
    → replace e rs ≡ some rs'
    → find? (same_key k) rs' ≡ (if same_key k e then some e else find? (same_key k) rs)
unfolding replace find?
replace-find? e k [] rs' h = ground arith
replace-find? e k (r ∷ rs) rs' h = elim (Bool-cases (same_key e r)) [
  | inl b ↦ ground (arith, h, eq_iff r.source_id e.source_id, eq_iff r.protocol e.protocol)
  | inr b ↦ elim (Option-cases (replace e rs)) [
    | inl n ↦ ground (arith, h)
    | inr (rs2, f) ↦ ground (
      arith,
      h,
      replace-find? e k rs rs2 f,
      eq_iff r.source_id e.source_id,
      eq_iff r.protocol e.protocol,
      eq_iff r.source_id k.source_id,
      eq_iff r.protocol k.protocol,
      eq_iff e.source_id k.source_id,
      eq_iff e.protocol k.protocol,
    )
  ]
]

pub replace-none :
    (e k : RouteEntry) (rs : List RouteEntry)
    → same_key k e ≡ true
    → replace e rs ≡ none
    → find? (same_key k) rs ≡ none
unfolding replace find?
replace-none e k [] b h = refl
replace-none e k (r ∷ rs) b h = elim (Option-cases (replace e rs)) [
  | inl n ↦ ground (
    arith,
    h,
    replace-none e k rs b n,
    eq_iff r.source_id e.source_id,
    eq_iff r.protocol e.protocol,
    eq_iff r.source_id k.source_id,
    eq_iff r.protocol k.protocol,
    eq_iff e.source_id k.source_id,
    eq_iff e.protocol k.protocol,
  )
  | inr (rs2, f) ↦ ground (arith, h)
]

append-find? :
    (e k : RouteEntry) (rs : List RouteEntry)
    → replace e rs ≡ none
    → find? (same_key k) (rs ++ e ∷ []) ≡ (if same_key k e then some e else find? (same_key k) rs)
append-find? e k rs h = elim (Option-cases (find? (same_key k) rs)) [
  | inl n ↦ ground (arith, find?-snoc (same_key k) rs e)
  | inr (r, f) ↦ ground (
    arith,
    f,
    find?-snoc_some (same_key k) rs e r,
    λ (b : same_key k e ≡ true). replace-none e k rs b h,
  )
]

-- Where the loop finds the route or not, the routes that are stored answer as the map does.
store_route-lookup :
    (now : ℕ) (e k : RouteEntry) (t : State) (target : String) (rs : List RouteEntry)
    → rs ≡ get_routes e.target_id t
    → lookup target k (store_route now e t rs (replace e rs))
      ≡ (if e.target_id == target && same_key k e then some e else lookup target k t)
unfolding store_route get_routes
store_route-lookup now e k t target rs same = elim (Option-cases (replace e rs)) [
  | inl n ↦ ground (
    arith,
    same,
    get-put target e.target_id (rs ++ e ∷ []) t.routes,
    append-find? e k rs n,
    eq_iff e.target_id target,
  )
  | inr (rs2, f) ↦ ground (
    arith,
    same,
    get-put target e.target_id rs2 t.routes,
    replace-find? e k rs rs2 f,
    eq_iff e.target_id target,
  )
]

-- AddRoute makes the entry, with the time of the call, the route of its source and protocol to its
-- target, and RemoveRoute leaves no route to its target; no other route changes.
pub add_route-lookup :
    (now : ℕ) (entry k : RouteEntry) (t : State) (target gone : String)
    → (lookup target k (add_route now entry t) ≡ (
        if entry.target_id == target && same_key k entry
        then some (record entry { updated_at = now })
        else lookup target k t))
      × (lookup target k (remove_route now gone t)
          ≡ (if gone == target then none else lookup target k t))
unfolding add_route remove_route get_routes
add_route-lookup now entry k t target gone = (
  store_route-lookup now (record entry { updated_at = now }) k t target
      (get_routes entry.target_id t) refl,
  elim (Option-cases (get gone t.routes)) [
    | inl n ↦ ground (arith, eq_iff gone target, no_route)
    | inr (rs, f) ↦ ground (arith, get-del target gone t.routes, no_route)
  ],
)
  where
    no_route : find? (same_key k) [] ≡ none
    no_route = unfold find? in refl
