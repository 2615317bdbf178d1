-- ===== src/Router/Engine.antt =====
-- internal/router/engine.go. The unstable sort of `sort.Slice` is the argument `sort`. The card of
-- peerclaw-core is read through its fields.
use peerclaw_server.Prelude.{
  ℕ, String, List, [], ◌∷◌, Bool, not, ◌==◌, ltb, nat_eq, if◌then◌else◌, Result, ok, err,
}
use peerclaw_server.Prelude.Table.{select}
use peerclaw_server.Router.Table.{RouteEntry, zero_int, State, get_routes, add_route, remove_route}

pub data ResolveError : Type 0 where
  no_target no_routes no_protocol : ResolveError

pub record ResolveOptions : Type 0 where
  pub target_id : String
  pub protocol : String
  pub capability : String

-- Priority descending, then latency ascending.
abbrev pub less : RouteEntry → RouteEntry → Bool
less r s =
    if not (nat_eq r.priority s.priority)
    then ltb s.priority r.priority
    else ltb r.latency_ms s.latency_ms

-- `routes[0]` of the sorted slice, which is not empty here.
unfoldable pub first : List RouteEntry → Result ResolveError RouteEntry
first [] = err no_routes
first (r ∷ rs) = ok r

unfoldable pub best_with_protocol :
    (List RouteEntry → List RouteEntry) → List RouteEntry → Result ResolveError RouteEntry
unfolding first
best_with_protocol sort [] = err no_protocol
best_with_protocol sort (r ∷ rs) = first (sort (r ∷ rs))

unfoldable pub best_of :
    (List RouteEntry → List RouteEntry) → String → List RouteEntry → Result ResolveError RouteEntry
unfolding best_with_protocol first select
best_of sort protocol [] = err no_routes
best_of sort protocol (r ∷ rs) =
    if not (protocol == "")
    then best_with_protocol sort (select (λ s. s.protocol == protocol) (r ∷ rs))
    else first (sort (r ∷ rs))

unfoldable pub resolve :
    (List RouteEntry → List RouteEntry) → ResolveOptions → State → Result ResolveError RouteEntry
unfolding best_of
resolve sort opts t =
    if opts.target_id == ""
    then err no_target
    else best_of sort opts.protocol (get_routes opts.target_id t)

pub record Card : Type 0 where
  pub id : String
  pub protocols : List String
  pub endpoint_url : String
  pub priority : ℕ

abbrev pub gateway_route : Card → String → RouteEntry
gateway_route card p = record {
  source_id = "gateway";
  target_id = card.id;
  protocol = p;
  endpoint = card.endpoint_url;
  latency_ms = zero_int;
  priority = card.priority;
  ttl = zero_int;
  signature = "";
  updated_at = 0;
}

unfoldable pub add_protocols : ℕ → Card → List String → State → State
unfolding add_route
add_protocols now card [] t = t
add_protocols now card (p ∷ ps) t =
    add_protocols now card ps (add_route now (gateway_route card p) t)

unfoldable pub update_from_card : ℕ → Card → State → State
unfolding add_protocols
update_from_card now card t = add_protocols now card card.protocols t

unfoldable pub remove_agent : ℕ → String → State → State
unfolding remove_route
remove_agent now agent t = remove_route now agent t
