-- ===== src/ContactReq/Invariant.antt =====
-- What holds of the table agent_contact_requests after any calls of internal/contactreq.
use peerclaw_server.Prelude.{
  ℕ, ◌≤◌, ◌≡◌, ◌≢◌, refl, inl, inr, ◌⊎◌, String, List, [], ◌∷◌, ◌++◌, Bool, true, false, ◌||◌, ◌==◌,
  Result, ok, err, Result-cases, StoreError, rfc3339, Env, arith, eq_iff, All, All-append,
}
use peerclaw_server.Prelude.Table.{
  count, count-snoc, count-remove-le, count-remove_within, count-update_same, All-remove,
  All-update, remove, update,
}
use peerclaw_server.ContactReq.Store
use peerclaw_server.ContactReq.Store.{ContactRequest, Rows, has_id, is_pair, to_row}
use peerclaw_server.ContactReq.Service.{
  Db, submit, approve, reject, written, finish_approve, pending_request,
}

-- The three statuses, and two different agents, neither of them empty.
pub record IsRequest (r : ContactRequest) : Type 0 where
  pub known : (r.status ≡ "pending") ⊎ (r.status ≡ "approved") ⊎ (r.status ≡ "rejected")
  pub other : r.from_agent_id ≢ r.to_agent_id
  pub from_agent : r.from_agent_id ≢ ""
  pub to_agent : r.to_agent_id ≢ ""

pub record IsValid (rows : Rows) : Type 0 where
  pub ids : (i : String) → count (has_id i) rows ≤ 1
  pub pairs : (f t : String) → count (is_pair f t) rows ≤ 1
  pub entries : All IsRequest rows

abbrev pub clashes : ContactRequest → ContactRequest → Bool
clashes q r = has_id q.id r || is_pair q.from_agent_id q.to_agent_id r

create-IsValid :
    (q : ContactRequest) (rows : Rows)
    → IsRequest q
    → IsValid rows
    → IsValid (remove (clashes q) rows ++ to_row q ∷ [])
create-IsValid q rows e v = record {
  ids = λ i. ground (
    arith,
    count-snoc (has_id i) (remove (clashes q) rows) (to_row q),
    v.ids i,
    eq_iff q.id i,
    count-remove-le (has_id i) (clashes q) rows,
    count-remove_within (has_id q.id) (clashes q) (λ r m. ground arith) rows,
  );
  pairs = λ f t. ground (
    arith,
    count-snoc (is_pair f t) (remove (clashes q) rows) (to_row q),
    v.pairs f t,
    eq_iff q.from_agent_id f,
    eq_iff q.to_agent_id t,
    count-remove-le (is_pair f t) (clashes q) rows,
    count-remove_within (is_pair q.from_agent_id q.to_agent_id) (clashes q) (λ r m. ground arith)
        rows,
  );
  entries =
      All-append IsRequest (remove (clashes q) rows) (to_row q ∷ [])
        (All-remove IsRequest (clashes q) rows v.entries)
        (
          record {
            known = e.known;
            other = e.other;
            from_agent = e.from_agent;
            to_agent = e.to_agent;
          },
          tt,
        );
}

module _ (i status reason : String) (now : ℕ) where
  abbrev pub set_status : ContactRequest → ContactRequest
  set_status r = record r { status = status; reject_reason = reason; updated_at = now }

  update-IsValid :
      (rows : Rows)
      → (status ≡ "pending") ⊎ (status ≡ "approved") ⊎ (status ≡ "rejected")
      → IsValid rows
      → IsValid (update (has_id i) set_status rows)
  update-IsValid rows known v = record {
    ids = λ j.
        omega
          (arith, count-update_same (has_id j) (has_id i) set_status (λ r m. refl) rows, v.ids j);
    pairs = λ f t. omega (
      arith,
      count-update_same (is_pair f t) (has_id i) set_status (λ r m. refl) rows,
      v.pairs f t,
    );
    entries =
        All-update IsRequest (has_id i) set_status
          (λ r m h. record {
            known = known;
            other = h.other;
            from_agent = h.from_agent;
            to_agent = h.to_agent;
          })
          rows v.entries;
  }

-- What a write leaves, when the store's part is known.
written-IsValid {ℓ} :
    {A : Type ℓ} (v : A) (db : Db) (r : Result StoreError Rows)
    → ((rows : Rows) → r ≡ ok rows → IsValid rows)
    → IsValid db.requests
    → IsValid (written v db r).0.requests
unfolding written
written-IsValid v db (ok rows) k h = k rows refl
written-IsValid v db (err e) k h = h

Store-create-IsValid :
    (up : Bool) (q : ContactRequest) (rows rows' : Rows)
    → Store.create up q rows ≡ ok rows'
    → IsRequest q
    → IsValid rows
    → IsValid rows'
unfolding Store.create
Store-create-IsValid true q rows rows' h e v = ground (arith, create-IsValid q rows e v)
Store-create-IsValid false q rows rows' h e v = cc

Store-update-IsValid :
    (up : Bool) (i status reason : String) (now : ℕ) (rows rows' : Rows)
    → Store.update_status up i status reason now rows ≡ ok rows'
    → (status ≡ "pending") ⊎ (status ≡ "approved") ⊎ (status ≡ "rejected")
    → IsValid rows
    → IsValid rows'
unfolding Store.update_status
Store-update-IsValid true i status reason now rows rows' h k v =
    ground (arith, update-IsValid i status reason (rfc3339 now) rows k v)
Store-update-IsValid false i status reason now rows rows' h k v = cc

submit-IsValid :
    (env : Env) (from_agent to_agent message : String) (db : Db)
    → IsValid db.requests
    → IsValid (submit env from_agent to_agent message db).0.requests
unfolding submit
submit-IsValid env from_agent to_agent message db v = ground (
  arith,
  λ (e : (from_agent == "" || to_agent == "") ≡ false) (d : (from_agent == to_agent) ≡ false).
      create-IsValid req db.requests (IsRequest_of_tests e d) v,
)
  where
    req : ContactRequest
    req = record {
      id = env.uuid 0;
      from_agent_id = from_agent;
      to_agent_id = to_agent;
      status = "pending";
      message = message;
      reject_reason = "";
      created_at = env.now 0;
      updated_at = env.now 0;
    }

    IsRequest_of_tests :
        (from_agent == "" || to_agent == "") ≡ false
        → (from_agent == to_agent) ≡ false
        → IsRequest req
    IsRequest_of_tests e d = record {
      known = inl refl;
      other = λ h. ground (arith, eq_iff from_agent to_agent);
      from_agent = λ h. ground (arith, eq_iff from_agent "");
      to_agent = λ h. ground (arith, eq_iff to_agent "");
    }

finish_approve-IsValid :
    (with_contacts : Bool) (env : Env) (req : ContactRequest) (db : Db) (r : Result StoreError Rows)
    → ((rows : Rows) → r ≡ ok rows → IsValid rows)
    → IsValid db.requests
    → IsValid (finish_approve with_contacts env req db r).0.requests
unfolding finish_approve
finish_approve-IsValid w env req db (ok rows) k h = k rows refl
finish_approve-IsValid w env req db (err e) k h = h

approve-IsValid :
    (with_contacts : Bool) (env : Env) (i : String) (db : Db)
    → IsValid db.requests
    → IsValid (approve with_contacts env i db).0.requests
unfolding approve
approve-IsValid w env i db v = elim (Result-cases (pending_request (env.up 0) i db.requests)) [
  | inl (req, e) ↦
      rw (e, approve)
        (finish_approve-IsValid w env req db _
          (λ rows h.
            Store-update-IsValid (env.up 1) i "approved" "" (env.now 0) db.requests rows h
              (inr (inl refl)) v)
          v)
  | inr (e, h) ↦ rw (h, approve) v
]

reject-IsValid :
    (env : Env) (i reason : String) (db : Db)
    → IsValid db.requests
    → IsValid (reject env i reason db).0.requests
unfolding reject
reject-IsValid env i reason db v = elim (Result-cases (pending_request (env.up 0) i db.requests)) [
  | inl (req, e) ↦
      rw (e, reject)
        (written-IsValid tt db _
          (λ rows h.
            Store-update-IsValid (env.up 1) i "rejected" reason (env.now 0) db.requests rows h
              (inr (inr refl)) v)
          v)
  | inr (e, h) ↦ rw (h, reject) v
]

pub data Call : Type 0 where
  submits : Env → String → String → String → Call
  approves : Bool → Env → String → Call
  rejects : Env → String → String → Call

unfoldable pub step : Db → Call → Db
step db (submits env from_agent to_agent message) = (submit env from_agent to_agent message db).0
step db (approves with_contacts env i) = (approve with_contacts env i db).0
step db (rejects env i reason) = (reject env i reason db).0

pub run_requests : Db → List Call → Db
run_requests db [] = db
run_requests db (c ∷ cs) = run_requests (step db c) cs

pub step-IsValid : (db : Db) (c : Call) → IsValid db.requests → IsValid (step db c).requests
unfolding step
step-IsValid db (submits env f t m) v = submit-IsValid env f t m db v
step-IsValid db (approves w env i) v = approve-IsValid w env i db v
step-IsValid db (rejects env i reason) v = reject-IsValid env i reason db v

-- Any calls of Submit, Approve and Reject keep this: an identifier and a pair of agents stand in one
-- request at most, and every request has one of the three statuses and two different, non-empty
-- agents. So it is after any calls from the empty table, whatever the driver does.
pub run_requests-IsValid :
    (db : Db) (cs : List Call) → IsValid db.requests → IsValid (run_requests db cs).requests
unfolding run_requests
run_requests-IsValid db [] v = v
run_requests-IsValid db (c ∷ cs) v = run_requests-IsValid (step db c) cs (step-IsValid db c v)
