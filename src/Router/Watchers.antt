-- ===== src/Router/Watchers.antt =====
-- What the watchers of internal/router hold.
use peerclaw_server.Prelude.{
  ℕ, ◌≤◌, inl, inr, String, Option, none, some, List, [], ◌∷◌, nat_eq, if◌then◌else◌, length,
  length-append, arith, All, All-append, Bool-cases,
}
use peerclaw_server.Prelude.Maps.{get}
use peerclaw_server.Router.Table.{
  RouteEntry, RouteUpdate, Watcher, State, capacity, send, notify, notify_removed, store_route,
  add_route, delete_routes, remove_route, watch, drop_watcher, unwatch,
}

-- No more messages wait than the channel holds.
abbrev pub Fits : Watcher → Type 0
Fits w = length w.buffer ≤ capacity

-- A reader takes the message that waits longest, if there is one.
take_first : List RouteUpdate → List RouteUpdate
take_first [] = []
take_first (u ∷ us) = us

unfoldable pub receive : ℕ → List Watcher → List Watcher
unfolding take_first
receive channel [] = []
receive channel (w ∷ ws) =
    (if nat_eq w.channel channel then record w { buffer = take_first w.buffer } else w)
    ∷ receive channel ws

pub data Event : Type 0 where
  adds : ℕ → RouteEntry → Event
  removes : ℕ → String → Event
  watches unwatches receives : ℕ → Event

unfoldable pub step : State → Event → State
step t (adds now entry) = add_route now entry t
step t (removes now target) = remove_route now target t
step t (watches channel) = watch channel t
step t (unwatches channel) = unwatch channel t
step t (receives channel) = record t { watchers = receive channel t.watchers }

unfoldable pub run_watched : State → List Event → State
unfolding step
run_watched t [] = t
run_watched t (e ∷ es) = run_watched (step t e) es

send-Fits : (u : RouteUpdate) (w : Watcher) → Fits w → Fits (send u w)
unfolding send
send-Fits u w h = ground (arith, length-append w.buffer (u ∷ []))

notify-Fits : (u : RouteUpdate) (ws : List Watcher) → All Fits ws → All Fits (notify u ws)
unfolding notify
notify-Fits u [] h = tt
notify-Fits u (w ∷ ws) h = (send-Fits u w h.0, notify-Fits u ws h.1)

notify_removed-Fits :
    (now : ℕ) (rs : List RouteEntry) (ws : List Watcher)
    → All Fits ws
    → All Fits (notify_removed now rs ws)
unfolding notify_removed
notify_removed-Fits now [] ws h = h
notify_removed-Fits now (r ∷ rs) ws h = notify_removed-Fits now rs _ (notify-Fits _ ws h)

store_route-Fits :
    (now : ℕ) (e : RouteEntry) (t : State) (rs : List RouteEntry) (o : Option (List RouteEntry))
    → All Fits t.watchers
    → All Fits (store_route now e t rs o).watchers
unfolding store_route
store_route-Fits now e t rs none h = notify-Fits _ t.watchers h
store_route-Fits now e t rs (some rs') h = notify-Fits _ t.watchers h

delete_routes-Fits :
    (now : ℕ) (target : String) (t : State) (o : Option (List RouteEntry))
    → All Fits t.watchers
    → All Fits (delete_routes now target t o).watchers
unfolding delete_routes
delete_routes-Fits now target t none h = h
delete_routes-Fits now target t (some rs) h = notify_removed-Fits now rs t.watchers h

drop_watcher-Fits : (c : ℕ) (ws : List Watcher) → All Fits ws → All Fits (drop_watcher c ws)
unfolding drop_watcher
drop_watcher-Fits c [] h = tt
drop_watcher-Fits c (w ∷ ws) h = elim (Bool-cases (nat_eq w.channel c)) [
  | inl y ↦ rw y h.1
  | inr n ↦ rw n (h.0, drop_watcher-Fits c ws h.1)
]

take_first-length : (us : List RouteUpdate) → length (take_first us) ≤ length us
unfolding take_first
take_first-length [] = omega arith
take_first-length (u ∷ us) = omega arith

receive-Fits : (c : ℕ) (ws : List Watcher) → All Fits ws → All Fits (receive c ws)
unfolding receive
receive-Fits c [] h = tt
receive-Fits c (w ∷ ws) h = (ground (arith, h.0, take_first-length w.buffer), receive-Fits c ws h.1)

step-Fits : (t : State) (e : Event) → All Fits t.watchers → All Fits (step t e).watchers
unfolding step add_route remove_route watch unwatch
step-Fits t (adds now entry) h = store_route-Fits now _ t _ _ h
step-Fits t (removes now target) h = delete_routes-Fits now target t (get target t.routes) h
step-Fits t (watches c) h = All-append Fits t.watchers _ h (ground arith, tt)
step-Fits t (unwatches c) h = drop_watcher-Fits c t.watchers h
step-Fits t (receives c) h = receive-Fits c t.watchers h

-- From watchers with at most 64 updates waiting, none has more after any calls of the table and any
-- reads.
pub run_watched-Fits :
    (t : State) (es : List Event) → All Fits t.watchers → All Fits (run_watched t es).watchers
unfolding run_watched
run_watched-Fits t [] h = h
run_watched-Fits t (e ∷ es) h = run_watched-Fits (step t e) es (step-Fits t e h)
