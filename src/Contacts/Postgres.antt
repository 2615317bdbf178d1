-- ===== src/Contacts/Postgres.antt =====
-- internal/contacts/postgres.go: the same table in Postgres. `keep` is the time that a TIMESTAMPTZ
-- column gives back for one that is written, and `now` of a query is NOW().
use peerclaw_server.Prelude.{
  ℕ, String, Option, none, some, List, [], ◌∷◌, ◌++◌, Bool, true, ◌&&◌, ◌==◌, ltb, if◌then◌else◌,
  Result, ok, err, StoreError, driver, constraint, not_found,
}
use peerclaw_server.Prelude.Table.{count, select, remove as delete}
use mathlib.Core.Option
use peerclaw_server.Contacts.Store.{Contact, is_pair, conflicts}

abbrev pub to_row : (ℕ → ℕ) → Contact → Contact
to_row keep c = record c {
  expires_at = Option.map keep c.expires_at;
  created_at = keep c.created_at;
}

unfoldable pub add : (ℕ → ℕ) → Bool → Contact → List Contact → Result StoreError (List Contact)
unfolding count
add keep up c rows =
    if up
    then (if ltb 0 (count (conflicts c) rows)
        then err constraint
        else ok (rows ++ to_row keep c ∷ []))
    else err driver

unfoldable pub remove : Bool → String → String → List Contact → Result StoreError (List Contact)
unfolding count delete
remove up owner contact rows =
    if up
    then (if ltb 0 (count (is_pair owner contact) rows)
        then ok (delete (is_pair owner contact) rows)
        else err not_found)
    else err driver

-- `expires_at IS NULL OR expires_at > NOW()`
abbrev pub unexpired : ℕ → Option ℕ → Bool
unexpired now none = true
unexpired now (some e) = ltb now e

abbrev pub admits : String → String → ℕ → Contact → Bool
admits owner contact now r = is_pair owner contact r && unexpired now r.expires_at

unfoldable pub is_allowed : Bool → String → String → ℕ → List Contact → Result StoreError Bool
unfolding count
is_allowed up owner contact now rows =
    if up then ok (ltb 0 (count (admits owner contact now) rows)) else err driver

unfoldable pub list_by_owner :
    (List Contact → List Contact) → Bool → String → List Contact → Result StoreError (List Contact)
unfolding select
list_by_owner order up owner rows =
    if up then ok (order (select (λ r. r.owner_agent_id == owner) rows)) else err driver
