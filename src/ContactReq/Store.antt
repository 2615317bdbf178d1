-- ===== src/ContactReq/Store.antt =====
-- internal/contactreq/store.go and sqlite.go: the table agent_contact_requests. The order that
-- `ORDER BY created_at DESC` gives is the argument `order`.
use peerclaw_server.Prelude.{
  ℕ, String, Option, List, [], ◌∷◌, ◌++◌, Bool, true, ◌&&◌, ◌||◌, ◌==◌, ltb, if◌then◌else◌, Result,
  ok, err, StoreError, driver, not_found, rfc3339,
}
use peerclaw_server.Prelude.Table.{count, find?, select, update, remove}

pub record ContactRequest : Type 0 where
  pub id : String
  pub from_agent_id : String
  pub to_agent_id : String
  pub status : String
  pub message : String
  pub reject_reason : String
  pub created_at : ℕ
  pub updated_at : ℕ

abbrev pub Rows : Type 0
Rows = List ContactRequest

-- WHERE id = ?
abbrev pub has_id : String → ContactRequest → Bool
has_id i r = r.id == i

-- WHERE from_agent_id = ? AND to_agent_id = ?
abbrev pub is_pair : String → String → ContactRequest → Bool
is_pair from_agent to_agent r = r.from_agent_id == from_agent && r.to_agent_id == to_agent

-- The row that INSERT writes: times in whole seconds.
abbrev pub to_row : ContactRequest → ContactRequest
to_row q = record q { created_at = rfc3339 q.created_at; updated_at = rfc3339 q.updated_at }

-- INSERT OR REPLACE deletes the rows that PRIMARY KEY (id) or UNIQUE (from_agent_id, to_agent_id)
-- would set against the new one.
unfoldable pub create : Bool → ContactRequest → Rows → Result StoreError Rows
unfolding remove
create up q rows =
    if up
    then ok (
        remove (λ r. has_id q.id r || is_pair q.from_agent_id q.to_agent_id r) rows
        ++ to_row q ∷ [])
    else err driver

-- `nil, nil` where no row is found.
unfoldable pub get_by_id : Bool → String → Rows → Result StoreError (Option ContactRequest)
unfolding find?
get_by_id up i rows = if up then ok (find? (has_id i) rows) else err driver

unfoldable pub get_by_agents :
    Bool → String → String → Rows → Result StoreError (Option ContactRequest)
unfolding find?
get_by_agents up from_agent to_agent rows =
    if up then ok (find? (is_pair from_agent to_agent) rows) else err driver

-- `if status != "" { query += " AND status = ?" }`
abbrev pub status_matches : String → ContactRequest → Bool
status_matches status r = if status == "" then true else r.status == status

unfoldable pub list_by_target :
    (Rows → Rows) → Bool → String → String → Rows → Result StoreError Rows
unfolding select
list_by_target order up to_agent status rows =
    if up
    then ok (order (select (λ r. r.to_agent_id == to_agent && status_matches status r) rows))
    else err driver

unfoldable pub list_by_sender :
    (Rows → Rows) → Bool → String → String → Rows → Result StoreError Rows
unfolding select
list_by_sender order up from_agent status rows =
    if up
    then ok (order (select (λ r. r.from_agent_id == from_agent && status_matches status r) rows))
    else err driver

-- The number of rows that the statement changes is not read.
unfoldable pub update_status : Bool → String → String → String → ℕ → Rows → Result StoreError Rows
unfolding update
update_status up i status reason now rows =
    if up
    then ok (
        update (has_id i)
          (λ r. record r { status = status; reject_reason = reason; updated_at = rfc3339 now })
          rows)
    else err driver

unfoldable pub delete : Bool → String → Rows → Result StoreError Rows
unfolding count remove
delete up i rows =
    if up
    then (if ltb 0 (count (has_id i) rows) then ok (remove (has_id i) rows) else err not_found)
    else err driver
