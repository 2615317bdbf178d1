-- ===== src/UserAcl/Grants.antt =====
-- Which calls of internal/useracl can let a user in.
use peerclaw_server.Prelude.{
  ℕ, ◌≤◌, ◌≡◌, inl, inr, ◌⊎◌, String, Option, none, some, true, ok, Env, arith, Bool-cases,
  Option-cases,
}
use peerclaw_server.Prelude.Table.{
  count, count-snoc, count-remove-le, count-update-le, update-absent, find?, remove,
}
use peerclaw_server.UserAcl.Store.{AccessRequest, Rows, has_id, is_pair, admits, set_status, to_row}
use peerclaw_server.UserAcl.Service.{submit_request, approve, reject, revoke, is_allowed}
use peerclaw_server.UserAcl.Invariant.{
  IsValid, Call, submits, approves, rejects, revokes, step, clashes,
}
use peerclaw_server.UserAcl.Access.{approve_by_id-is_allowed}

-- The call approves a request of the pair.
abbrev pub Grant : String → String → Rows → Call → Type 0
Grant agent user rows (approves env i expires) =
    (r : AccessRequest) × (find? (has_id i) rows ≡ some r) × (is_pair agent user r ≡ true)
Grant agent user rows (submits env a u m) = ⊥
Grant agent user rows (rejects env i reason) = ⊥
Grant agent user rows (revokes env i) = ⊥

submit_request-admits :
    (env : Env) (a u m agent user : String) (now : ℕ) (rows : Rows)
    → count (admits agent user now) (submit_request env a u m rows).0
      ≤ count (admits agent user now) rows
unfolding submit_request
submit_request-admits env a u m agent user now rows = ground (
  arith,
  count-snoc (admits agent user now) (remove (clashes req) rows) (to_row req),
  count-remove-le (admits agent user now) (clashes req) rows,
)
  where
    req : AccessRequest
    req = record {
      id = env.uuid 0;
      agent_id = a;
      user_id = u;
      status = "pending";
      message = m;
      reject_reason = "";
      expires_at = none;
      created_at = env.now 0;
      updated_at = env.now 0;
    }

approve-admits :
    (env : Env) (i : String) (expires : Option ℕ) (agent user : String) (now : ℕ) (rows : Rows)
    → IsValid rows
    → is_allowed true agent user now (approve env i expires rows).0 ≡ ok true
    → (is_allowed true agent user now rows ≡ ok true)
      ⊎ Grant agent user rows (approves env i expires)
unfolding approve
approve-admits env i expires agent user now rows v h = elim (Bool-cases (env.up 0)) [
  | inr down ↦ inl (ground (arith))
  | inl up ↦ elim (Option-cases (find? (has_id i) rows)) [
    | inl n ↦ inl (
        ground
          (arith, update-absent (has_id i) (set_status "approved" "" expires (env.now 0)) rows n))
    | inr (r, f) ↦ elim (Bool-cases (is_pair agent user r)) [
      | inl b ↦ inr (r, f, b)
      | inr b ↦
          inl (ground (arith, approve_by_id-is_allowed env i expires rows r agent user now v up f))
    ]
  ]
]

-- IsAllowed says yes after a call only if it said yes before it at the same time, or if the call
-- approves a request of the pair itself.
pub is_allowed-step :
    (rows : Rows) (c : Call) (agent user : String) (now : ℕ)
    → IsValid rows
    → is_allowed true agent user now (step rows c) ≡ ok true
    → (is_allowed true agent user now rows ≡ ok true) ⊎ Grant agent user rows c
unfolding step is_allowed reject revoke
is_allowed-step rows (submits env a u m) agent user now v h =
    inl (ground (arith, submit_request-admits env a u m agent user now rows))
is_allowed-step rows (approves env i expires) agent user now v h =
    approve-admits env i expires agent user now rows v h
is_allowed-step rows (rejects env i reason) agent user now v h = inl (
    ground (
      arith,
      count-update-le (admits agent user now) (has_id i)
          (set_status "rejected" reason none (env.now 0)) (λ r g m. ground arith) rows,
    ))
is_allowed-step rows (revokes env i) agent user now v h =
    inl (ground (arith, count-remove-le (admits agent user now) (has_id i) rows))

-- Approve and Reject of an identifier that no request has leave the table as it is and return no
-- error, where the driver runs the statement.
pub approve_of_unknown :
    (env : Env) (i reason : String) (expires : Option ℕ) (rows : Rows)
    → env.up 0 ≡ true
    → find? (has_id i) rows ≡ none
    → (approve env i expires rows ≡ (rows, ok tt)) × (reject env i reason rows ≡ (rows, ok tt))
unfolding approve reject
approve_of_unknown env i reason expires rows up n = (
  ground (arith, update-absent (has_id i) (set_status "approved" "" expires (env.now 0)) rows n),
  ground (arith, update-absent (has_id i) (set_status "rejected" reason none (env.now 0)) rows n),
)
