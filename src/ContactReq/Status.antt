-- ===== src/ContactReq/Status.antt =====
-- The status of a pair of agents: which changes the calls of internal/contactreq make.
use mathlib.Core.Path.{subst₂}
use peerclaw_server.Prelude.{
  ◌≡◌, ◌≢◌, inl, inr, ◌⊎◌, String, Option, none, some, Bool, true, false, ◌&&◌, ◌==◌, Env, arith,
  eq_iff, eq_refl, rfc3339, Bool-cases, Option-cases, Result-cases, &&-eq-true,
}
use peerclaw_server.Prelude.Table.{count, find?}
use peerclaw_server.ContactReq.Store.{ContactRequest, has_id, is_pair}
use peerclaw_server.ContactReq.Service.{Db, submit, approve, reject, pending_request}
use peerclaw_server.ContactReq.Invariant.{IsValid, Call, submits, approves, rejects, step}
use peerclaw_server.ContactReq.Lookup.{
  status_of, Move, keep, open_request, reopen, accept, refuse, status-create, status-update,
  pending_request-inv, status_cases,
}

same_agents : (a b c d : String) → (a == c && b == d) ≡ true → (a ≡ c) × (b ≡ d)
same_agents a b c d e = (
  (eq_iff a c).0 (&&-eq-true (a == c) (b == d) e).0,
  (eq_iff b d).0 (&&-eq-true (a == c) (b == d) e).1,
)

module _ (env : Env) (from_agent to_agent message : String) (db : Db) where
  -- The request that Submit writes.
  abbrev submitted : ContactRequest
  submitted = record {
    id = env.uuid 0;
    from_agent_id = from_agent;
    to_agent_id = to_agent;
    status = "pending";
    message = message;
    reject_reason = "";
    created_at = env.now 0;
    updated_at = env.now 0;
  }

  submit_other :
      (f t : String)
      → (from_agent == f && to_agent == t) ≡ false
      → count (has_id (env.uuid 0)) db.requests ≡ 0
      → status_of f t (submit env from_agent to_agent message db).0.requests
        ≡ status_of f t db.requests
  unfolding submit
  submit_other f t e fresh = ground (arith, status-create f t db.requests submitted)

  submit_own :
      env.up 0 ≡ true
      → count (has_id (env.uuid 0)) db.requests ≡ 0
      → IsValid db.requests
      → let before = status_of from_agent to_agent db.requests in
        let after =
          status_of from_agent to_agent (submit env from_agent to_agent message db).0.requests in
        (after ≡ before)
        ⊎ ((after ≡ some "pending") × ((before ≡ none) ⊎ (before ≡ some "rejected")))
  unfolding submit
  submit_own up fresh v = elim (Option-cases (find? (is_pair from_agent to_agent) db.requests)) [
    | inl n ↦ ground (
      arith,
      status-create from_agent to_agent db.requests submitted,
      eq_refl from_agent,
      eq_refl to_agent,
    )
    | inr (r, n) ↦ ground (
      arith,
      status-create from_agent to_agent db.requests submitted,
      eq_refl from_agent,
      eq_refl to_agent,
      status_cases from_agent to_agent db.requests v,
      eq_iff r.status "pending",
      eq_iff r.status "approved",
    )
  ]

  submit-Move :
      (f t : String)
      → env.up 0 ≡ true
      → count (has_id (env.uuid 0)) db.requests ≡ 0
      → IsValid db.requests
      → Move
          (status_of f t db.requests)
          (status_of f t (submit env from_agent to_agent message db).0.requests)
  submit-Move f t up fresh v = elim (Bool-cases (from_agent == f && to_agent == t)) [
    | inr e ↦ keep (submit_other f t e fresh)
    | inl e ↦
        subst₂
          (λ f t.
            Move (status_of f t db.requests)
              (status_of f t (submit env from_agent to_agent message db).0.requests))
          (same_agents from_agent to_agent f t e).0 (same_agents from_agent to_agent f t e).1
          (own_move (submit_own up fresh v))
  ]
    where
      own_move :
          {before after : Option String}
          → (after ≡ before)
            ⊎ ((after ≡ some "pending") × ((before ≡ none) ⊎ (before ≡ some "rejected")))
          → Move before after
      own_move (inl k) = keep k
      own_move (inr (a, inl b)) = open_request b a
      own_move (inr (a, inr b)) = reopen b a

-- A change by Approve or Reject, as a sum of equations.
abbrev Decided : String → Option String → Option String → Type 0
Decided status before after = (after ≡ before) ⊎ ((before ≡ some "pending") × (after ≡ some status))

module _ (env : Env) (i : String) (db : Db) (v : IsValid db.requests) (f t : String) where
  approve-Decided :
      (with_contacts : Bool)
      → Decided "approved"
          (status_of f t db.requests)
          (status_of f t (approve with_contacts env i db).0.requests)
  unfolding approve
  approve-Decided w = elim (Result-cases (pending_request (env.up 0) i db.requests)) [
    | inr (x, e) ↦ ground arith
    | inl (g, e) ↦ ground (
      arith,
      pending_request-inv (env.up 0) i db.requests g e,
      v.ids i,
      status-update f t i "approved" "" (rfc3339 (env.now 0)) db.requests g (v.ids i),
    )
  ]

  approve-Move :
      (with_contacts : Bool)
      → Move (status_of f t db.requests) (status_of f t (approve with_contacts env i db).0.requests)
  approve-Move w = elim (approve-Decided w) [ inl k ↦ keep k | inr (b, a) ↦ accept b a ]

  reject-Decided :
      (reason : String)
      → Decided "rejected"
          (status_of f t db.requests)
          (status_of f t (reject env i reason db).0.requests)
  unfolding reject
  reject-Decided reason = elim (Result-cases (pending_request (env.up 0) i db.requests)) [
    | inr (x, e) ↦ ground arith
    | inl (g, e) ↦ ground (
      arith,
      pending_request-inv (env.up 0) i db.requests g e,
      v.ids i,
      status-update f t i "rejected" reason (rfc3339 (env.now 0)) db.requests g (v.ids i),
    )
  ]

  reject-Move :
      (reason : String)
      → Move (status_of f t db.requests) (status_of f t (reject env i reason db).0.requests)
  reject-Move reason = elim (reject-Decided reason) [ inl k ↦ keep k | inr (b, a) ↦ refuse b a ]

-- What the workflow relies on: Submit's lookup is run, and its new identifier is in no request.
abbrev pub Regular : Db → Call → Type 0
Regular db (submits env from_agent to_agent message) =
    (env.up 0 ≡ true) × (count (has_id (env.uuid 0)) db.requests ≡ 0)
Regular db (approves with_contacts env i) = Unit
Regular db (rejects env i reason) = Unit

-- On a valid table every call moves the status of every pair along the workflow, or leaves it: no
-- request or a rejected one becomes pending, a pending one is approved or rejected, and an approved
-- one stays. A Submit is taken with its lookup run and its new identifier in no request.
pub step-Move :
    (db : Db) (c : Call) (f t : String)
    → IsValid db.requests
    → Regular db c
    → Move (status_of f t db.requests) (status_of f t (step db c).requests)
unfolding step
step-Move db (submits env from_agent to_agent message) f t v (up, fresh) =
    submit-Move env from_agent to_agent message db f t up fresh v
step-Move db (approves w env i) f t v h = approve-Move env i db v f t w
step-Move db (rejects env i reason) f t v h = reject-Move env i db v f t reason

-- Where its lookup fails, its insertion runs and its identifier is new, Submit overwrites the approved
-- request of two different agents: the pair is pending again.
pub submit_forgets_approval :
    (env : Env) (from_agent to_agent message : String) (db : Db)
    → env.up 0 ≡ false
    → env.up 1 ≡ true
    → count (has_id (env.uuid 0)) db.requests ≡ 0
    → from_agent ≢ ""
    → to_agent ≢ ""
    → from_agent ≢ to_agent
    → status_of from_agent to_agent db.requests ≡ some "approved"
    → status_of from_agent to_agent (submit env from_agent to_agent message db).0.requests
      ≡ some "pending"
unfolding submit
submit_forgets_approval env from_agent to_agent message db down up fresh f t d approved = ground (
  arith,
  status-create from_agent to_agent db.requests (submitted env from_agent to_agent message db),
  eq_refl from_agent,
  eq_refl to_agent,
  eq_iff from_agent "",
  eq_iff to_agent "",
  eq_iff from_agent to_agent,
)
