-- ===== src/Router/Examples.antt =====
-- Runs of internal/router, and its theorems at them.
use peerclaw_server.Prelude.{
  ℕ, ◌≡◌, refl, inl, String, none, some, [], ◌∷◌, true, false, ◌&&◌, ok, arith, eq_iff, All,
}
use peerclaw_server.Prelude.Maps.{get}
use peerclaw_server.Prelude.Table.{count}
use peerclaw_server.Router.Table.{RouteEntry, State, new_table, add_route, remove_route, get_routes}
use peerclaw_server.Router.Engine.{ResolveOptions, resolve}
use peerclaw_server.Router.Routes.{lookup, add_route-lookup}
use peerclaw_server.Router.Refinement.{
  IsValid, run_routes, latest, run_routes-latest, run_routes-IsValid,
}
use peerclaw_server.Router.Refinement as Refinement
use peerclaw_server.Router.Best.{Member, fits, is_better, resolve-best, resolve-total}
use peerclaw_server.Router.Sorting.{insertion_sort, insertion_sort-IsSort, place}

abbrev route : String → ℕ → ℕ → RouteEntry
route protocol latency priority = record {
  source_id = "gateway";
  target_id = "alice";
  protocol = protocol;
  endpoint = "https://a";
  latency_ms = latency;
  priority = priority;
  ttl = 0;
  signature = "";
  updated_at = 0;
}

abbrev table : State
table = record {
  routes = ("alice", route "a2a" 20 1 ∷ route "mcp" 10 1 ∷ route "acp" 0 0 ∷ []) ∷ [];
  updated_at = 0;
  watchers = record { channel = 1; buffer = [] } ∷ [];
}

abbrev empty : State
empty = new_table 0

empty-IsValid : IsValid empty
unfolding new_table get_routes get
empty-IsValid = record {
  unique = λ target k. unfold count in ground arith;
  targets = λ target. unfold count in refl;
}

add_route-lookup_example :
    (lookup "alice" (route "mcp" 0 0) (add_route 9 (route "mcp" 5 5) table)
      ≡ some (record (route "mcp" 5 5) { updated_at = 9 }))
    × (lookup "alice" (route "mcp" 0 0) (remove_route 9 "alice" table) ≡ none)
add_route-lookup_example =
    add_route-lookup 9 (route "mcp" 5 5) (route "mcp" 0 0) table "alice" "alice"

run_routes-latest_example :
    lookup "alice"
      (route "mcp" 0 0)
      (run_routes table (Refinement.adds 9 (route "mcp" 5 5) ∷ Refinement.removes 10 "bob" ∷ []))
    ≡ latest "alice"
        (route "mcp" 0 0)
        (lookup "alice" (route "mcp" 0 0) table)
        (Refinement.adds 9 (route "mcp" 5 5) ∷ Refinement.removes 10 "bob" ∷ [])
run_routes-latest_example =
    run_routes-latest "alice" (route "mcp" 0 0) table
      (Refinement.adds 9 (route "mcp" 5 5) ∷ Refinement.removes 10 "bob" ∷ [])

abbrev options : ResolveOptions
options = record { target_id = "alice"; protocol = ""; capability = "" }

chosen : resolve insertion_sort options table ≡ ok (route "mcp" 10 1)
unfolding resolve get_routes get insertion_sort place
chosen = refl

resolve-best_example :
    Member (route "mcp" 10 1) (get_routes "alice" table)
    × (fits "" (route "mcp" 10 1) ≡ true)
    × All (λ s. (fits "" s && is_better s (route "mcp" 10 1)) ≡ false) (get_routes "alice" table)
resolve-best_example =
    resolve-best insertion_sort options table (route "mcp" 10 1) insertion_sort-IsSort chosen

member : Member (route "a2a" 20 1) (get_routes "alice" table)
unfolding get_routes get
member = inl refl

resolve-total_example : (r : RouteEntry) × (resolve insertion_sort options table ≡ ok r)
resolve-total_example =
    resolve-total insertion_sort options table (route "a2a" 20 1) insertion_sort-IsSort
      (λ e. ground (arith, eq_iff "alice" "")) member refl
