-- ===== src/UserAcl/Store.antt =====
-- internal/useracl/store.go and sqlite.go: the table agent_user_acl. The order that
-- `ORDER BY created_at DESC` gives is the argument `order`.
use peerclaw_server.Prelude.{
  ℕ, String, Option, List, [], ◌∷◌, ◌++◌, Bool, true, ◌&&◌, ◌||◌, ◌==◌, ltb, if◌then◌else◌, Result,
  ok, err, StoreError, driver, not_found, rfc3339, rfc3339_null, unexpired,
}
use peerclaw_server.Prelude.Table.{count, find?, select, update, remove}

pub record AccessRequest : Type 0 where
  pub id : String
  pub agent_id : String
  pub user_id : String
  pub status : String
  pub message : String
  pub reject_reason : String
  pub expires_at : Option ℕ
  pub created_at : ℕ
  pub updated_at : ℕ

abbrev pub Rows : Type 0
Rows = List AccessRequest

-- WHERE id = ?
abbrev pub has_id : String → AccessRequest → Bool
has_id i r = r.id == i

-- WHERE agent_id = ? AND user_id = ?
abbrev pub is_pair : String → String → AccessRequest → Bool
is_pair agent user r = r.agent_id == agent && r.user_id == user

-- The row that INSERT writes: times in whole seconds.
abbrev pub to_row : AccessRequest → AccessRequest
to_row q = record q {
  expires_at = rfc3339_null q.expires_at;
  created_at = rfc3339 q.created_at;
  updated_at = rfc3339 q.updated_at;
}

-- INSERT OR REPLACE deletes the rows that PRIMARY KEY (id) or UNIQUE (agent_id, user_id) would set
-- against the new one.
unfoldable pub create : Bool → AccessRequest → Rows → Result StoreError Rows
unfolding remove
create up q rows =
    if up
    then ok (remove (λ r. has_id q.id r || is_pair q.agent_id q.user_id r) rows ++ to_row q ∷ [])
    else err driver

unfoldable pub get_by_id : Bool → String → Rows → Result StoreError (Option AccessRequest)
unfolding find?
get_by_id up i rows = if up then ok (find? (has_id i) rows) else err driver

unfoldable pub get_by_agent_and_user :
    Bool → String → String → Rows → Result StoreError (Option AccessRequest)
unfolding find?
get_by_agent_and_user up agent user rows =
    if up then ok (find? (is_pair agent user) rows) else err driver

unfoldable pub list_by_agent :
    (Rows → Rows) → Bool → String → String → Rows → Result StoreError Rows
unfolding select
list_by_agent order up agent status rows =
    if up
    then ok (
        order (
          select (λ r. r.agent_id == agent && (if status == "" then true else r.status == status))
            rows))
    else err driver

unfoldable pub list_by_user : (Rows → Rows) → Bool → String → Rows → Result StoreError Rows
unfolding select
list_by_user order up user rows =
    if up then ok (order (select (λ r. r.user_id == user) rows)) else err driver

-- The columns that UpdateStatus sets.
abbrev pub set_status : String → String → Option ℕ → ℕ → AccessRequest → AccessRequest
set_status status reason expires now r = record r {
  status = status;
  reject_reason = reason;
  expires_at = rfc3339_null expires;
  updated_at = rfc3339 now;
}

-- The number of rows that the statement changes is not read.
unfoldable pub update_status :
    Bool → String → String → String → Option ℕ → ℕ → Rows → Result StoreError Rows
unfolding update
update_status up i status reason expires now rows =
    if up then ok (update (has_id i) (set_status status reason expires now) rows) else err driver

-- The WHERE clause of IsAllowed.
abbrev pub admits : String → String → ℕ → AccessRequest → Bool
admits agent user now r =
    is_pair agent user r && (r.status == "approved" && unexpired now r.expires_at)

unfoldable pub is_allowed : Bool → String → String → ℕ → Rows → Result StoreError Bool
unfolding count
is_allowed up agent user now rows =
    if up then ok (ltb 0 (count (admits agent user now) rows)) else err driver

unfoldable pub delete : Bool → String → Rows → Result StoreError Rows
unfolding count remove
delete up i rows =
    if up
    then (if ltb 0 (count (has_id i) rows) then ok (remove (has_id i) rows) else err not_found)
    else err driver
