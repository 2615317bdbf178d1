-- ===== src/UserAcl/Invariant.antt =====
-- What holds of the table agent_user_acl after any calls of internal/useracl.
use peerclaw_server.Prelude.{
  ℕ, ◌≤◌, ◌≡◌, ◌≢◌, refl, inl, inr, ◌⊎◌, String, Option, none, List, [], ◌∷◌, ◌++◌, Bool, false,
  ◌||◌, ◌==◌, Env, arith, eq_iff, All, All-append,
}
use peerclaw_server.Prelude.Table.{
  count, count-snoc, count-remove-le, count-remove_within, count-update_same, All-remove,
  All-update, remove, update,
}
use peerclaw_server.UserAcl.Store.{AccessRequest, Rows, has_id, is_pair, to_row, set_status}
use peerclaw_server.UserAcl.Service.{submit_request, approve, reject, revoke}

-- One of the three statuses, and a named agent and user.
pub record IsRequest (r : AccessRequest) : Type 0 where
  pub known : (r.status ≡ "pending") ⊎ (r.status ≡ "approved") ⊎ (r.status ≡ "rejected")
  pub agent : r.agent_id ≢ ""
  pub user : r.user_id ≢ ""

pub record IsValid (rows : Rows) : Type 0 where
  pub ids : (i : String) → count (has_id i) rows ≤ 1
  pub pairs : (a u : String) → count (is_pair a u) rows ≤ 1
  pub entries : All IsRequest rows

abbrev pub clashes : AccessRequest → AccessRequest → Bool
clashes q r = has_id q.id r || is_pair q.agent_id q.user_id r

create-IsValid :
    (q : AccessRequest) (rows : Rows)
    → IsRequest q
    → IsValid rows
    → IsValid (remove (clashes q) rows ++ to_row q ∷ [])
create-IsValid q rows e v = record {
  ids = λ i. ground (
    arith,
    count-snoc (has_id i) (remove (clashes q) rows) (to_row q),
    v.ids i,
    eq_iff q.id i,
    count-remove-le (has_id i) (clashes q) rows,
    count-remove_within (has_id q.id) (clashes q) (λ r m. ground arith) rows,
  );
  pairs = λ a u. ground (
    arith,
    count-snoc (is_pair a u) (remove (clashes q) rows) (to_row q),
    v.pairs a u,
    eq_iff q.agent_id a,
    eq_iff q.user_id u,
    count-remove-le (is_pair a u) (clashes q) rows,
    count-remove_within (is_pair q.agent_id q.user_id) (clashes q) (λ r m. ground arith) rows,
  );
  entries =
      All-append IsRequest (remove (clashes q) rows) (to_row q ∷ [])
        (All-remove IsRequest (clashes q) rows v.entries)
        (record { known = e.known; agent = e.agent; user = e.user }, tt);
}

pub update-IsValid :
    (i status reason : String) (expires : Option ℕ) (now : ℕ) (rows : Rows)
    → (status ≡ "pending") ⊎ (status ≡ "approved") ⊎ (status ≡ "rejected")
    → IsValid rows
    → IsValid (update (has_id i) (set_status status reason expires now) rows)
update-IsValid i status reason expires now rows known v = record {
  ids = λ j. omega (
    arith,
    count-update_same (has_id j) (has_id i) (set_status status reason expires now) (λ r m. refl)
        rows,
    v.ids j,
  );
  pairs = λ a u. omega (
    arith,
    count-update_same (is_pair a u) (has_id i) (set_status status reason expires now) (λ r m. refl)
        rows,
    v.pairs a u,
  );
  entries =
      All-update IsRequest (has_id i) (set_status status reason expires now)
        (λ r m h. record { known = known; agent = h.agent; user = h.user }) rows v.entries;
}

pub remove-IsValid :
    (p : AccessRequest → Bool) (rows : Rows) → IsValid rows → IsValid (remove p rows)
remove-IsValid p rows v = record {
  ids = λ i. omega (arith, count-remove-le (has_id i) p rows, v.ids i);
  pairs = λ a u. omega (arith, count-remove-le (is_pair a u) p rows, v.pairs a u);
  entries = All-remove IsRequest p rows v.entries;
}

submit_request-IsValid :
    (env : Env) (agent user message : String) (rows : Rows)
    → IsValid rows
    → IsValid (submit_request env agent user message rows).0
unfolding submit_request
submit_request-IsValid env agent user message rows v = ground (
  arith,
  λ (e : (agent == "" || user == "") ≡ false). create-IsValid req rows (IsRequest_of_test e) v,
)
  where
    req : AccessRequest
    req = record {
      id = env.uuid 0;
      agent_id = agent;
      user_id = user;
      status = "pending";
      message = message;
      reject_reason = "";
      expires_at = none;
      created_at = env.now 0;
      updated_at = env.now 0;
    }

    IsRequest_of_test : (agent == "" || user == "") ≡ false → IsRequest req
    IsRequest_of_test e = record {
      known = inl refl;
      agent = λ h. ground (arith, eq_iff agent "");
      user = λ h. ground (arith, eq_iff user "");
    }

pub data Call : Type 0 where
  submits : Env → String → String → String → Call
  approves : Env → String → Option ℕ → Call
  rejects : Env → String → String → Call
  revokes : Env → String → Call

unfoldable pub step : Rows → Call → Rows
step rows (submits env agent user message) = (submit_request env agent user message rows).0
step rows (approves env i expires) = (approve env i expires rows).0
step rows (rejects env i reason) = (reject env i reason rows).0
step rows (revokes env i) = (revoke env i rows).0

unfoldable pub run_access : Rows → List Call → Rows
unfolding step
run_access rows [] = rows
run_access rows (c ∷ cs) = run_access (step rows c) cs

pub step-IsValid : (rows : Rows) (c : Call) → IsValid rows → IsValid (step rows c)
unfolding step approve reject revoke
step-IsValid rows (submits env a u m) v = submit_request-IsValid env a u m rows v
step-IsValid rows (approves env i e) v =
    ground (arith, update-IsValid i "approved" "" e (env.now 0) rows (inr (inl refl)) v)
step-IsValid rows (rejects env i reason) v =
    ground (arith, update-IsValid i "rejected" reason none (env.now 0) rows (inr (inr refl)) v)
step-IsValid rows (revokes env i) v = ground (arith, remove-IsValid (has_id i) rows v)

-- Any calls of the service keep this: an identifier and a pair of agent and user stand in one request
-- at most, and every request has one of the three statuses and a non-empty agent and user. So it is
-- after any calls from the empty table, whatever the driver does.
pub run_access-IsValid :
    (rows : Rows) (cs : List Call) → IsValid rows → IsValid (run_access rows cs)
unfolding run_access
run_access-IsValid rows [] v = v
run_access-IsValid rows (c ∷ cs) v = run_access-IsValid (step rows c) cs (step-IsValid rows c v)
