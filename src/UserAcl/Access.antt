-- ===== src/UserAcl/Access.antt =====
-- Who may use an agent: what each call of internal/useracl does to the verdict of IsAllowed.
use mathlib.Core.Option
use peerclaw_server.Prelude.{
  ℕ, ◌≡◌, refl, ap, inl, inr, String, Option, none, some, Bool, true, false, ◌&&◌, ◌==◌,
  if◌then◌else◌, ok, Env, arith, Option-cases, rfc3339_null, unexpired,
}
use peerclaw_server.Prelude.Table.{
  count-narrow, find?-update, find?_unique, passes, find?-remove-none, find?-remove_hit,
  find?-remove_miss, find?-holds, count_of_found, count_of_find?-none, count_of_find?-some, find?,
  remove, update,
}
use peerclaw_server.UserAcl.Store.{AccessRequest, Rows, has_id, is_pair, set_status}
use peerclaw_server.UserAcl.Service.{approve, reject, revoke, is_allowed}
use peerclaw_server.UserAcl.Invariant.{IsValid, update-IsValid, remove-IsValid}

-- What IsAllowed asks of the request of a pair: approved, and not run out.
abbrev pub verdict : ℕ → AccessRequest → Bool
verdict now r = r.status == "approved" && unexpired now r.expires_at

-- IsAllowed answers by the one request of the pair: it must be approved and not have run out.
pub is_allowed-eq-verdict :
    (agent user : String) (now : ℕ) (rows : Rows)
    → IsValid rows
    → is_allowed true agent user now rows
      ≡ ok (passes (verdict now) (find? (is_pair agent user) rows))
unfolding is_allowed
is_allowed-eq-verdict agent user now rows v =
    ap ok (count-narrow (is_pair agent user) (verdict now) rows (v.pairs agent user))

module _ (status reason : String) (expires : Option ℕ) (env : Env) (i : String) (rows : Rows)
    (v : IsValid rows) where
  abbrev updated : Rows
  updated = update (has_id i) (set_status status reason expires (env.now 0)) rows

  -- The request of a pair after an update of one request.
  find?-updated :
      (r : AccessRequest) (a u : String)
      → find? (has_id i) rows ≡ some r
      → find? (is_pair a u) updated ≡ (
          if is_pair a u r
          then some (set_status status reason expires (env.now 0) r)
          else find? (is_pair a u) rows)
  find?-updated r a u h = elim (Option-cases (find? (is_pair a u) rows)) [
    | inl n ↦ ground (
      arith,
      moved,
      count_of_found (is_pair a u) (has_id i) rows r h,
      count_of_find?-none (is_pair a u) rows n,
    )
    | inr (x, n) ↦ ground (
      arith,
      moved,
      find?-holds (has_id i) rows r h,
      find?-holds (is_pair a u) rows x n,
      v.ids i,
      v.pairs a u,
      find?_unique (has_id i) (is_pair a u) rows r x,
      find?_unique (is_pair a u) (has_id i) rows x r,
    )
  ]
    where
      moved :
          find? (is_pair a u) updated
          ≡ Option.map
              (λ r. if has_id i r then set_status status reason expires (env.now 0) r else r)
              (find? (is_pair a u) rows)
      moved =
          find?-update (is_pair a u) (has_id i) (set_status status reason expires (env.now 0))
            (λ r. refl) rows

-- The request of a pair after a deletion of one request.
find?-deleted :
    (i : String) (rows : Rows) (v : IsValid rows) (r : AccessRequest) (a u : String)
    → find? (has_id i) rows ≡ some r
    → find? (is_pair a u) (remove (has_id i) rows)
      ≡ (if is_pair a u r then none else find? (is_pair a u) rows)
find?-deleted i rows v r a u h = elim (Option-cases (find? (is_pair a u) rows)) [
  | inl n ↦ ground (arith, find?-remove-none (is_pair a u) (has_id i) rows)
  | inr (x, n) ↦ ground (
    arith,
    find?-holds (has_id i) rows r h,
    find?-holds (is_pair a u) rows x n,
    v.ids i,
    v.pairs a u,
    find?_unique (has_id i) (is_pair a u) rows r x,
    find?_unique (is_pair a u) (has_id i) rows x r,
    find?-remove_hit (is_pair a u) (has_id i) rows x,
    find?-remove_miss (is_pair a u) (has_id i) rows x,
  )
]

-- Approve admits the user of the request with the given identifier, whatever its status was, until
-- the given expiry, and changes no other verdict. The driver is taken to run the statement.
pub approve_by_id-is_allowed :
    (env : Env) (i : String) (expires : Option ℕ) (rows : Rows) (r : AccessRequest)
    (agent user : String) (now : ℕ)
    → IsValid rows
    → env.up 0 ≡ true
    → find? (has_id i) rows ≡ some r
    → is_allowed true agent user now (approve env i expires rows).0 ≡ (
        if is_pair agent user r
        then ok (unexpired now (rfc3339_null expires))
        else is_allowed true agent user now rows)
unfolding approve
approve_by_id-is_allowed env i expires rows r agent user now v up h = ground (
  arith,
  is_allowed-eq-verdict agent user now rows v,
  is_allowed-eq-verdict agent user now (updated "approved" "" expires env i rows v)
      (update-IsValid i "approved" "" expires (env.now 0) rows (inr (inl refl)) v),
  find?-updated "approved" "" expires env i rows v r agent user h,
)

-- A successful Reject or Revoke of a request shuts its user out at every time, and changes no other
-- verdict. The driver is taken to run the statement.
pub denial-is_allowed :
    (env : Env) (i reason : String) (rows : Rows) (r : AccessRequest) (agent user : String)
    (now : ℕ)
    → IsValid rows
    → env.up 0 ≡ true
    → find? (has_id i) rows ≡ some r
    → (is_allowed true agent user now (reject env i reason rows).0
        ≡ (if is_pair agent user r then ok false else is_allowed true agent user now rows))
      × (is_allowed true agent user now (revoke env i rows).0
          ≡ (if is_pair agent user r then ok false else is_allowed true agent user now rows))
unfolding reject revoke
denial-is_allowed env i reason rows r agent user now v up h = (
  ground (
    arith,
    is_allowed-eq-verdict agent user now rows v,
    is_allowed-eq-verdict agent user now (updated "rejected" reason none env i rows v)
        (update-IsValid i "rejected" reason none (env.now 0) rows (inr (inr refl)) v),
    find?-updated "rejected" reason none env i rows v r agent user h,
  ),
  ground (
    arith,
    count_of_find?-some (has_id i) rows r h,
    is_allowed-eq-verdict agent user now rows v,
    is_allowed-eq-verdict agent user now (remove (has_id i) rows)
        (remove-IsValid (has_id i) rows v),
    find?-deleted i rows v r agent user h,
  ),
)
