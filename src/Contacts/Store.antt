-- ===== src/Contacts/Store.antt =====
-- internal/contacts/store.go and sqlite.go: the table agent_contacts. The order that
-- `ORDER BY created_at DESC` gives is the argument `order`.
use peerclaw_server.Prelude.{
  ℕ, String, Option, List, [], ◌∷◌, ◌++◌, Bool, ◌&&◌, ◌||◌, ◌==◌, ltb, if◌then◌else◌, Result, ok,
  err, StoreError, driver, constraint, not_found, rfc3339, rfc3339_null, unexpired,
}
use peerclaw_server.Prelude.Table.{count, select, remove as delete}

pub record Contact : Type 0 where
  pub id : String
  pub owner_agent_id : String
  pub contact_agent_id : String
  pub alias : String
  pub expires_at : Option ℕ
  pub created_at : ℕ

-- WHERE owner_agent_id = ? AND contact_agent_id = ?
abbrev pub is_pair : String → String → Contact → Bool
is_pair owner contact r = r.owner_agent_id == owner && r.contact_agent_id == contact

-- The constraints of the schema: PRIMARY KEY (id) and UNIQUE (owner_agent_id, contact_agent_id).
abbrev pub conflicts : Contact → Contact → Bool
conflicts c r = r.id == c.id || is_pair c.owner_agent_id c.contact_agent_id r

-- The row that INSERT writes: times in whole seconds.
abbrev pub to_row : Contact → Contact
to_row c = record c { expires_at = rfc3339_null c.expires_at; created_at = rfc3339 c.created_at }

unfoldable pub add : Bool → Contact → List Contact → Result StoreError (List Contact)
unfolding count
add up c rows =
    if up
    then (if ltb 0 (count (conflicts c) rows) then err constraint else ok (rows ++ to_row c ∷ []))
    else err driver

unfoldable pub remove : Bool → String → String → List Contact → Result StoreError (List Contact)
unfolding count delete
remove up owner contact rows =
    if up
    then (if ltb 0 (count (is_pair owner contact) rows)
        then ok (delete (is_pair owner contact) rows)
        else err not_found)
    else err driver

-- The WHERE clause of IsAllowed.
abbrev pub admits : String → String → ℕ → Contact → Bool
admits owner contact now r = is_pair owner contact r && unexpired now r.expires_at

unfoldable pub is_allowed : Bool → String → String → ℕ → List Contact → Result StoreError Bool
unfolding count
is_allowed up owner contact now rows =
    if up then ok (ltb 0 (count (admits owner contact now) rows)) else err driver

unfoldable pub list_by_owner :
    (List Contact → List Contact) → Bool → String → List Contact → Result StoreError (List Contact)
unfolding select
list_by_owner order up owner rows =
    if up then ok (order (select (λ r. r.owner_agent_id == owner) rows)) else err driver
