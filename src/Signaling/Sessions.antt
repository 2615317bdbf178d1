-- ===== src/Signaling/Sessions.antt =====
-- Which connection of an agent the hub holds.
use peerclaw_server.Prelude.{
  ℕ, ◌≡◌, refl, inl, inr, String, Option, none, some, List, [], ◌∷◌, ◌&&◌, ◌==◌, nat_eq,
  if◌then◌else◌, arith, eq_iff, Option-cases, ap, ◌∙◌,
}
use peerclaw_server.Prelude.Maps.{get, get-put, get-del}
use peerclaw_server.Signaling.Conns.{Conns, Event, registers, leaves, closes_all, handle, events}

-- The connection that the agent registered last, if it has not left and the hub was not closed since.
unfoldable pub newest : String → Option ℕ → Event → Option ℕ
newest agent c (registers a d) = if a == agent then some d else c
newest agent c (leaves a d) = elim c [
  | none ↦ none
  | some e ↦ if a == agent && nat_eq e d then none else some e
]
newest agent c closes_all = none

unfoldable pub newest_of : String → Option ℕ → List Event → Option ℕ
unfolding newest
newest_of agent c [] = c
newest_of agent c (e ∷ es) = newest_of agent (newest agent c e) es

get-handle :
    (agent : String) (conns : Conns) (e : Event)
    → get agent (handle conns e) ≡ newest agent (get agent conns) e
unfolding handle newest
get-handle agent conns (registers a c) = get-put agent a c conns
get-handle agent conns (leaves a c) = elim (Option-cases (get a conns)) [
  | inl n ↦ elim (Option-cases (get agent conns)) [
    | inl m ↦ ground arith
    | inr (e, m) ↦ ground (arith, eq_iff a agent)
  ]
  | inr (d, n) ↦ elim (Option-cases (get agent conns)) [
    | inl m ↦ ground (arith, eq_iff a agent, get-del agent a conns)
    | inr (e, m) ↦ ground (arith, eq_iff a agent, get-del agent a conns)
  ]
]
get-handle agent conns closes_all = unfold get in refl

-- Whatever the order in which the connections register and leave, the hub holds for each agent the
-- connection that registered last, until that very connection leaves or the hub closes all: a
-- connection that has been replaced does not take its successor's entry away when it ends.
pub events-newest :
    (agent : String) (conns : Conns) (es : List Event)
    → get agent (events conns es) ≡ newest_of agent (get agent conns) es
unfolding events newest_of
events-newest agent conns [] = refl
events-newest agent conns (e ∷ es) =
    events-newest agent (handle conns e) es
    ∙ ap (λ c. newest_of agent c es) (get-handle agent conns e)
