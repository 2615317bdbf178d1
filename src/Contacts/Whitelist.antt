-- ===== src/Contacts/Whitelist.antt =====
-- What the whitelist admits after each operation of internal/contacts.
use peerclaw_server.Prelude.{
  ℕ, ◌≡◌, inl, inr, String, Option, List, [], ◌∷◌, ◌++◌, Bool, true, false, ◌&&◌, ◌==◌, ltb,
  if◌then◌else◌, ok, err, rfc3339_null, unexpired, arith, eq_iff, Bool-cases, &&-eq-true,
}
use peerclaw_server.Prelude.Table.{
  count, count-snoc, count-remove_within, count-remove_apart, count_mono,
}
use peerclaw_server.Contacts.Store
use peerclaw_server.Contacts.Store.{Contact, is_pair, admits, conflicts, to_row}
use peerclaw_server.Contacts.Service.{add, remove, is_allowed, Error}

-- A row of the pair and a row of another pair are apart.
pair_apart :
    (o c o' c' : String)
    → (o == o' && c == c') ≡ false
    → (r : Contact) → is_pair o c r ≡ true
    → is_pair o' c' r ≡ false
pair_apart o c o' c' h r e = ground (
  arith,
  eq_iff r.owner_agent_id o,
  eq_iff r.contact_agent_id c,
  eq_iff r.owner_agent_id o',
  eq_iff r.contact_agent_id c',
  eq_iff o o',
  eq_iff c c',
)

admits-is_pair : (o c : String) (t : ℕ) (r : Contact) → admits o c t r ≡ true → is_pair o c r ≡ true
admits-is_pair o c t r h = (&&-eq-true (is_pair o c r) _ h).0

conflict_of_pair :
    (c r : Contact) → is_pair c.owner_agent_id c.contact_agent_id r ≡ true → conflicts c r ≡ true
conflict_of_pair c r h = ground arith

-- Without a conflicting row, no row of the pair admits anyone.
unclaimed :
    (c : Contact) (t : ℕ) (rows : List Contact)
    → count (conflicts c) rows ≡ 0
    → count (admits c.owner_agent_id c.contact_agent_id t) rows ≡ 0
unclaimed c t rows h = omega (
  arith,
  count_mono (admits c.owner_agent_id c.contact_agent_id t) (conflicts c)
      (λ r e. conflict_of_pair c r (admits-is_pair c.owner_agent_id c.contact_agent_id t r e)) rows,
)

-- What a successful insertion tells.
pub add-inv :
    (up : Bool) (c : Contact) (rows rows' : List Contact)
    → Store.add up c rows ≡ ok rows'
    → (rows' ≡ rows ++ to_row c ∷ []) × (count (conflicts c) rows ≡ 0)
unfolding Store.add
add-inv up c rows rows' h = ground arith

count-admits-add :
    (c : Contact) (rows : List Contact) (o a : String) (t : ℕ)
    → count (conflicts c) rows ≡ 0
    → ltb 0 (count (admits o a t) (rows ++ to_row c ∷ [])) ≡ (
        if o == c.owner_agent_id && a == c.contact_agent_id
        then unexpired t (rfc3339_null c.expires_at)
        else ltb 0 (count (admits o a t) rows))
count-admits-add c rows o a t h = ground (
  arith,
  count-snoc (admits o a t) rows (to_row c),
  unclaimed c t rows h,
  eq_iff o c.owner_agent_id,
  eq_iff a c.contact_agent_id,
  eq_iff c.owner_agent_id o,
  eq_iff c.contact_agent_id a,
)

-- A successful Add admits the contact at the owner until the stored expiry, and changes nothing for
-- any other pair.
pub add-is_allowed :
    (up : Bool) (id : String) (now : ℕ) (owner contact alias : String) (expires : Option ℕ)
    (rows : List Contact) {c : Contact}
    → (add up id now owner contact alias expires rows).1 ≡ ok c
    → (from_agent to_agent : String) (t : ℕ)
    → is_allowed true from_agent to_agent t (add up id now owner contact alias expires rows).0 ≡ (
        if to_agent == owner && from_agent == contact
        then ok (unexpired t (rfc3339_null expires))
        else is_allowed true from_agent to_agent t rows)
unfolding add is_allowed
add-is_allowed up id now owner contact alias expires rows h from_agent to_agent t = ground (
  arith,
  count-admits-add
      (record {
        id = id;
        owner_agent_id = owner;
        contact_agent_id = contact;
        alias = alias;
        expires_at = expires;
        created_at = now;
      })
      rows to_agent from_agent t,
)

-- A call of Add that returns an error leaves the table as it was.
pub add_failure :
    (up : Bool) (id : String) (now : ℕ) (owner contact alias : String) (expires : Option ℕ)
    (rows : List Contact) (e : Error)
    → (add up id now owner contact alias expires rows).1 ≡ err e
    → (add up id now owner contact alias expires rows).0 ≡ rows
unfolding add
add_failure up id now owner contact alias expires rows e h = ground arith

-- After a successful Remove the contact is admitted no more, at any time, and nothing changes for
-- any other pair.
pub remove-is_allowed :
    (up : Bool) (owner contact : String) (rows : List Contact)
    → (remove up owner contact rows).1 ≡ ok tt
    → (from_agent to_agent : String) (t : ℕ)
    → is_allowed true from_agent to_agent t (remove up owner contact rows).0 ≡ (
        if owner == to_agent && contact == from_agent
        then ok false
        else is_allowed true from_agent to_agent t rows)
unfolding remove is_allowed
remove-is_allowed up owner contact rows h from_agent to_agent t =
    elim (Bool-cases (owner == to_agent && contact == from_agent)) [
      | inl e ↦ ground (
        arith,
        count-remove_within (admits to_agent from_agent t) (is_pair owner contact)
            (λ r m. same_pair e r (admits-is_pair to_agent from_agent t r m)) rows,
      )
      | inr e ↦ ground (
        arith,
        count-remove_apart (admits to_agent from_agent t) (is_pair owner contact)
            (λ r m.
              pair_apart to_agent from_agent owner contact (flip e) r
                (admits-is_pair to_agent from_agent t r m))
            rows,
      )
    ]
  where
    same_pair :
        (owner == to_agent && contact == from_agent) ≡ true
        → (r : Contact) → is_pair to_agent from_agent r ≡ true
        → is_pair owner contact r ≡ true
    same_pair e r m = ground (
      arith,
      eq_iff owner to_agent,
      eq_iff contact from_agent,
      eq_iff r.owner_agent_id owner,
      eq_iff r.contact_agent_id contact,
    )

    flip :
        (owner == to_agent && contact == from_agent) ≡ false
        → (to_agent == owner && from_agent == contact) ≡ false
    flip e = ground (
      arith,
      eq_iff owner to_agent,
      eq_iff contact from_agent,
      eq_iff to_agent owner,
      eq_iff from_agent contact,
    )
