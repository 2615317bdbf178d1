-- ===== src/Contacts/Service.antt =====
-- internal/contacts/service.go. A call returns the table that it leaves and its result; the new
-- UUID and the time of the call are arguments.
use peerclaw_server.Prelude.{
  ℕ, String, Option, List, Bool, ◌||◌, ◌==◌, if◌then◌else◌, Result, ok, err, StoreError,
}
use peerclaw_server.Contacts.Store
use peerclaw_server.Contacts.Store.{Contact}

pub data Error : Type 0 where
  ids_required cannot_add_self : Error
  store_failed : StoreError → Error

-- `if err := s.store.…; err != nil { return …wrapped… }`, else the value.
unfoldable pub after {ℓ} :
    {A : Type ℓ}
    → A
    → Result StoreError (List Contact)
    → List Contact
    → List Contact × Result Error A
after v (ok rows') rows = (rows', ok v)
after v (err e) rows = (rows, err (store_failed e))

unfoldable pub add :
    Bool
    → String
    → ℕ
    → String
    → String
    → String
    → Option ℕ
    → List Contact
    → List Contact × Result Error Contact
unfolding after Store.add
add up id now owner contact alias expires rows =
    if owner == "" || contact == ""
    then (rows, err ids_required)
    else if owner == contact
    then (rows, err cannot_add_self)
    else after c (Store.add up c rows) rows
  where
    c : Contact
    c = record {
      id = id;
      owner_agent_id = owner;
      contact_agent_id = contact;
      alias = alias;
      expires_at = expires;
      created_at = now;
    }

unfoldable pub remove :
    Bool → String → String → List Contact → List Contact × Result Error (Unit {0})
unfolding after Store.remove
remove up owner contact rows = after tt (Store.remove up owner contact rows) rows

-- The receiver owns the list; the sender must stand on it.
unfoldable pub is_allowed : Bool → String → String → ℕ → List Contact → Result StoreError Bool
unfolding Store.is_allowed
is_allowed up from_agent to_agent now rows = Store.is_allowed up to_agent from_agent now rows

unfoldable pub list_by_owner :
    (List Contact → List Contact) → Bool → String → List Contact → Result StoreError (List Contact)
unfolding Store.list_by_owner
list_by_owner order up owner rows = Store.list_by_owner order up owner rows
