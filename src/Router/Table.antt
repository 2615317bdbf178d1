-- ===== src/Router/Table.antt =====
-- internal/router/table.go. A call runs under the table's lock, so the calls are functions on its
-- state one after another. A watcher is the number of its channel and the updates that wait in it;
-- a send to a full channel is dropped. The clock is the argument `now`, one reading
-- for a call.
use peerclaw_server.Prelude.{
  ℕ, String, Option, none, some, List, [], ◌∷◌, ◌++◌, Bool, ◌&&◌, ◌==◌, ltb, nat_eq, if◌then◌else◌,
  length,
}
use peerclaw_server.Prelude.Maps.{Map, get, put, del}

-- An int is kept as its distance from the least one, so that negative ones compare as they do in Go;
-- the code only compares them.
abbrev pub zero_int : ℕ
zero_int = 9_223_372_036_854_775_808

pub record RouteEntry : Type 0 where
  pub source_id : String
  pub target_id : String
  pub protocol : String
  pub endpoint : String
  pub latency_ms : ℕ
  pub priority : ℕ
  pub ttl : ℕ
  pub signature : String
  pub updated_at : ℕ

pub data UpdateType : Type 0 where
  update_add update_remove update_modify : UpdateType

pub record RouteUpdate : Type 0 where
  pub kind : UpdateType
  pub route : RouteEntry
  pub timestamp : ℕ

pub record Watcher : Type 0 where
  pub channel : ℕ
  pub buffer : List RouteUpdate

pub record State : Type 0 where
  pub routes : Map (List RouteEntry)
  pub updated_at : ℕ
  pub watchers : List Watcher

-- The capacity of a watcher's channel.
abbrev pub capacity : ℕ
capacity = 64

unfoldable pub new_table : ℕ → State
new_table now = record { routes = []; updated_at = now; watchers = [] }

-- `t.routes[target]`: nil where the key is missing.
unfoldable pub routes_of : Option (List RouteEntry) → List RouteEntry
routes_of none = []
routes_of (some rs) = rs

-- `case ch <- update: default:`
unfoldable pub send : RouteUpdate → Watcher → Watcher
send u w = if ltb (length w.buffer) capacity then record w { buffer = w.buffer ++ u ∷ [] } else w

unfoldable pub notify : RouteUpdate → List Watcher → List Watcher
unfolding send
notify u [] = []
notify u (w ∷ ws) = send u w ∷ notify u ws

-- Whether a route has the source and the protocol of another one.
abbrev pub same_key : RouteEntry → RouteEntry → Bool
same_key e r = r.source_id == e.source_id && r.protocol == e.protocol

-- The loop over the routes: the first with the same source and protocol is replaced.
unfoldable pub replace : RouteEntry → List RouteEntry → Option (List RouteEntry)
replace e [] = none
replace e (r ∷ rs) =
    let rest = replace e rs in
    if same_key e r then some (e ∷ rs) else elim rest [ none ↦ none | some rs' ↦ some (r ∷ rs') ]

unfoldable pub store_route :
    ℕ → RouteEntry → State → List RouteEntry → Option (List RouteEntry) → State
unfolding notify
store_route now e t rs none = record {
  routes = put e.target_id (rs ++ e ∷ []) t.routes;
  updated_at = now;
  watchers = notify (record { kind = update_add; route = e; timestamp = now }) t.watchers;
}
store_route now e t rs (some rs') = record {
  routes = put e.target_id rs' t.routes;
  updated_at = now;
  watchers = notify (record { kind = update_modify; route = e; timestamp = now }) t.watchers;
}

unfoldable pub add_route : ℕ → RouteEntry → State → State
unfolding store_route replace routes_of
add_route now entry t =
    let e = record entry { updated_at = now } in
    let rs = routes_of (get e.target_id t.routes) in store_route now e t rs (replace e rs)

unfoldable pub notify_removed : ℕ → List RouteEntry → List Watcher → List Watcher
unfolding notify
notify_removed now [] ws = ws
notify_removed now (r ∷ rs) ws =
    notify_removed now rs (notify (record { kind = update_remove; route = r; timestamp = now }) ws)

unfoldable pub delete_routes : ℕ → String → State → Option (List RouteEntry) → State
unfolding notify_removed
delete_routes now target t none = t
delete_routes now target t (some rs) = record {
  routes = del target t.routes;
  updated_at = now;
  watchers = notify_removed now rs t.watchers;
}

unfoldable pub remove_route : ℕ → String → State → State
unfolding delete_routes
remove_route now target t = delete_routes now target t (get target t.routes)

unfoldable pub get_routes : String → State → List RouteEntry
unfolding routes_of
get_routes target t = routes_of (get target t.routes)

-- The iteration over the map has an order of its own, the argument `order`.
unfoldable pub concat_routes : Map (List RouteEntry) → List RouteEntry
concat_routes [] = []
concat_routes ((target, rs) ∷ m) = rs ++ concat_routes m

unfoldable pub all_routes :
    (Map (List RouteEntry) → Map (List RouteEntry)) → State → List RouteEntry
unfolding concat_routes
all_routes order t = concat_routes (order t.routes)

-- A new channel has a number that no watcher has.
unfoldable pub watch : ℕ → State → State
watch channel t = record t {
  watchers = t.watchers ++ record { channel = channel; buffer = [] } ∷ [];
}

unfoldable pub drop_watcher : ℕ → List Watcher → List Watcher
drop_watcher channel [] = []
drop_watcher channel (w ∷ ws) =
    let rest = drop_watcher channel ws in if nat_eq w.channel channel then ws else w ∷ rest

unfoldable pub unwatch : ℕ → State → State
unfolding drop_watcher
unwatch channel t = record t { watchers = drop_watcher channel t.watchers }
