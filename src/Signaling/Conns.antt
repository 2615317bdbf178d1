-- ===== src/Signaling/Conns.antt =====
-- The table of connections of Hub in internal/signaling/ws.go. A connection is its number. The steps
-- of HandleConnect that hold the lock are events, and events of different connections interleave in
-- any order; a run is a list of them.
use peerclaw_server.Prelude.{
  ℕ, String, Option, none, some, List, [], ◌∷◌, Bool, true, false, ◌&&◌, not, ltb, leb, nat_eq,
  if◌then◌else◌, length,
}
use peerclaw_server.Prelude.Maps.{Map, get, put, del}

abbrev pub Conns : Type 0
Conns = Map ℕ

unfoldable pub has_agent : String → Conns → Bool
has_agent agent conns = elim (get agent conns) [ none ↦ false | some c ↦ true ]

-- The check before the upgrade: 0 is no limit.
unfoldable pub admits : ℕ → String → Conns → Bool
unfolding has_agent
admits max_conns agent conns =
    if ltb 0 max_conns
    then not (not (has_agent agent conns) && leb max_conns (length conns))
    else true

-- The registration after authentication: the new table, and the connection that it closes.
unfoldable pub register : String → ℕ → Conns → Conns × Option ℕ
register agent conn conns = (put agent conn conns, get agent conns)

unfoldable pub same : Option ℕ → ℕ → Bool
same none conn = false
same (some c) conn = nat_eq c conn

-- The deferred function: a connection that has been replaced leaves the entry of its successor.
unfoldable pub unregister : String → ℕ → Conns → Conns
unfolding same
unregister agent conn conns = if same (get agent conns) conn then del agent conns else conns

unfoldable pub close_all : Conns → Conns
close_all conns = []

unfoldable pub connected_agents : Conns → ℕ
connected_agents conns = length conns

pub data Event : Type 0 where
  registers leaves : String → ℕ → Event
  closes_all : Event

unfoldable pub handle : Conns → Event → Conns
unfolding register unregister close_all
handle conns (registers agent conn) = (register agent conn conns).0
handle conns (leaves agent conn) = unregister agent conn conns
handle conns closes_all = close_all conns

unfoldable pub events : Conns → List Event → Conns
unfolding handle
events conns [] = conns
events conns (e ∷ es) = events (handle conns e) es

-- One whole call of HandleConnect up to the registration, with no other call between its check and its
-- registration.
unfoldable pub connect : ℕ → String → ℕ → Conns → Conns
unfolding admits register
connect max_conns agent conn conns =
    if admits max_conns agent conns then (register agent conn conns).0 else conns
