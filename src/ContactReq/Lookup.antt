-- ===== src/ContactReq/Lookup.antt =====
-- The status of a pair of agents in the table of internal/contactreq after each of its statements.
use mathlib.Core.Option
use peerclaw_server.Prelude.{
  ℕ, ◌≤◌, ◌≡◌, refl, inl, inr, ◌⊎◌, String, Option, none, some, [], ◌∷◌, ◌++◌, Bool, true, false,
  ◌&&◌, ◌==◌, if◌then◌else◌, ok, arith, eq_iff, Bool-cases, Option-cases,
}
use peerclaw_server.Prelude.Table.{
  count, find?, find?-snoc, find?-snoc_some, find?-remove_within, find?-remove_apart, find?-update,
  remove-or_absent, find?_unique, find?-All, remove, update,
}
use peerclaw_server.ContactReq.Store.{ContactRequest, Rows, has_id, is_pair, to_row}
use peerclaw_server.ContactReq.Service.{pending_request}
use peerclaw_server.ContactReq.Invariant.{IsValid, IsRequest, clashes, set_status}

-- The status of the request of a pair, if there is one.
abbrev pub status_of : String → String → Rows → Option String
status_of f t rows = Option.map (λ (r : ContactRequest). r.status) (find? (is_pair f t) rows)

-- The changes of a status that a workflow of requests allows.
pub data Move (s t : Option String) : Type 0 where
  keep : t ≡ s → Move s t
  open_request : s ≡ none → t ≡ some "pending" → Move s t
  reopen : s ≡ some "rejected" → t ≡ some "pending" → Move s t
  accept : s ≡ some "pending" → t ≡ some "approved" → Move s t
  refuse : s ≡ some "pending" → t ≡ some "rejected" → Move s t

status-snoc :
    (f t : String) (rows : Rows) (q : ContactRequest)
    → status_of f t (remove (is_pair q.from_agent_id q.to_agent_id) rows ++ to_row q ∷ [])
      ≡ (if q.from_agent_id == f && q.to_agent_id == t then some q.status else status_of f t rows)
status-snoc f t rows q = elim (Bool-cases (q.from_agent_id == f && q.to_agent_id == t)) [
  | inl e ↦ ground (
    arith,
    find?-remove_within (is_pair f t) (is_pair q.from_agent_id q.to_agent_id) (same e) rows,
    find?-snoc (is_pair f t) (remove (is_pair q.from_agent_id q.to_agent_id) rows) (to_row q),
  )
  | inr e ↦ elim (Option-cases (find? (is_pair f t) rows)) [
    | inl n ↦ ground (
      arith,
      find?-remove_apart (is_pair f t) (is_pair q.from_agent_id q.to_agent_id) (apart e) rows,
      find?-snoc (is_pair f t) (remove (is_pair q.from_agent_id q.to_agent_id) rows) (to_row q),
    )
    | inr (r, n) ↦ ground (
      arith,
      find?-remove_apart (is_pair f t) (is_pair q.from_agent_id q.to_agent_id) (apart e) rows,
      find?-snoc_some (is_pair f t) (remove (is_pair q.from_agent_id q.to_agent_id) rows) (to_row q)
          r,
    )
  ]
]
  where
    same :
        (q.from_agent_id == f && q.to_agent_id == t) ≡ true
        → (r : ContactRequest) → is_pair f t r ≡ true
        → is_pair q.from_agent_id q.to_agent_id r ≡ true
    same e r m = ground (
      arith,
      eq_iff q.from_agent_id f,
      eq_iff q.to_agent_id t,
      eq_iff r.from_agent_id f,
      eq_iff r.to_agent_id t,
      eq_iff r.from_agent_id q.from_agent_id,
      eq_iff r.to_agent_id q.to_agent_id,
    )

    apart :
        (q.from_agent_id == f && q.to_agent_id == t) ≡ false
        → (r : ContactRequest) → is_pair f t r ≡ true
        → is_pair q.from_agent_id q.to_agent_id r ≡ false
    apart e r m = ground (
      arith,
      eq_iff q.from_agent_id f,
      eq_iff q.to_agent_id t,
      eq_iff r.from_agent_id f,
      eq_iff r.to_agent_id t,
      eq_iff r.from_agent_id q.from_agent_id,
      eq_iff r.to_agent_id q.to_agent_id,
    )

-- A new request sets the status of its own pair and no other, if its identifier is new.
pub status-create :
    (f t : String) (rows : Rows) (q : ContactRequest)
    → count (has_id q.id) rows ≡ 0
    → status_of f t (remove (clashes q) rows ++ to_row q ∷ [])
      ≡ (if q.from_agent_id == f && q.to_agent_id == t then some q.status else status_of f t rows)
status-create f t rows q fresh =
    rw (remove-or_absent (has_id q.id) (is_pair q.from_agent_id q.to_agent_id) rows fresh)
      (status-snoc f t rows q)

-- An update by identifier sets the status of the pair whose request has it.
pub status-update :
    (f t i status reason : String) (now : ℕ) (rows : Rows) (g : ContactRequest)
    → count (has_id i) rows ≤ 1
    → find? (has_id i) rows ≡ some g
    → (status_of f t (update (has_id i) (set_status i status reason now) rows) ≡ status_of f t rows)
      ⊎ ((status_of f t rows ≡ some g.status)
          × (status_of f t (update (has_id i) (set_status i status reason now) rows) ≡ some status))
status-update f t i status reason now rows g u h = elim (Option-cases (find? (is_pair f t) rows)) [
  | inl e ↦ ground (arith, moved)
  | inr (r, e) ↦ ground (arith, moved, find?_unique (has_id i) (is_pair f t) rows g r)
]
  where
    moved :
        find? (is_pair f t) (update (has_id i) (set_status i status reason now) rows)
        ≡ Option.map
            (λ r. if has_id i r then set_status i status reason now r else r)
            (find? (is_pair f t) rows)
    moved = find?-update (is_pair f t) (has_id i) (set_status i status reason now) (λ r. refl) rows

-- What a pending request is.
pub pending_request-inv :
    (up : Bool) (i : String) (rows : Rows) (g : ContactRequest)
    → pending_request up i rows ≡ ok g
    → (find? (has_id i) rows ≡ some g) × (g.status ≡ "pending")
unfolding pending_request
pending_request-inv up i rows g h = ground (arith, eq_iff g.status "pending")

-- A request of a valid table that is neither pending nor approved was rejected.
pub status_cases :
    (f t : String) (rows : Rows)
    → IsValid rows
    → (status_of f t rows ≡ none)
      ⊎ (status_of f t rows ≡ some "pending")
      ⊎ (status_of f t rows ≡ some "approved")
      ⊎ (status_of f t rows ≡ some "rejected")
status_cases f t rows v = elim (Option-cases (find? (is_pair f t) rows)) [
  | inl e ↦ ground arith
  | inr (r, e) ↦ ground (arith, (find?-All (is_pair f t) IsRequest rows r v.entries e).known)
]
