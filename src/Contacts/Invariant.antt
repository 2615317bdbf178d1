-- ===== src/Contacts/Invariant.antt =====
-- What holds of the table agent_contacts after any calls of internal/contacts.
use peerclaw_server.Prelude.{
  ℕ, ◌≤◌, ◌≡◌, ◌≢◌, refl, inl, inr, String, Option, List, [], ◌∷◌, ◌++◌, Bool, false, ◌||◌, ◌==◌,
  Result, ok, err, StoreError, subst, sym, arith, eq_iff, Bool-cases, All, All-append,
}
use peerclaw_server.Prelude.Table.{
  count, count-snoc, count-remove-le, count_mono, All-remove, remove as delete,
}
use peerclaw_server.Contacts.Store
use peerclaw_server.Contacts.Store.{Contact, is_pair, conflicts, to_row}
use peerclaw_server.Contacts.Service.{add, remove, after}
use peerclaw_server.Contacts.Whitelist.{add-inv}

abbrev pub has_id : String → Contact → Bool
has_id i r = r.id == i

abbrev pub IsEntry : Contact → Type 0
IsEntry r =
    (r.owner_agent_id ≢ r.contact_agent_id) × (r.owner_agent_id ≢ "") × (r.contact_agent_id ≢ "")

-- Identifiers and pairs stand in one row at most, and no agent lists itself or an empty name.
pub record IsValid (rows : List Contact) : Type 0 where
  pub ids : (i : String) → count (has_id i) rows ≤ 1
  pub pairs : (o c : String) → count (is_pair o c) rows ≤ 1
  pub entries : All IsEntry rows

pub data Call : Type 0 where
  adds : Bool → String → ℕ → String → String → String → Option ℕ → Call
  removes : Bool → String → String → Call

pub step : List Contact → Call → List Contact
step rows (adds up id now owner contact alias expires) =
    (add up id now owner contact alias expires rows).0
step rows (removes up owner contact) = (remove up owner contact rows).0

pub run : List Contact → List Call → List Contact
run rows [] = rows
run rows (c ∷ cs) = run (step rows c) cs

snoc-IsValid :
    (c : Contact) (rows : List Contact)
    → count (conflicts c) rows ≡ 0
    → IsEntry c
    → IsValid rows
    → IsValid (rows ++ to_row c ∷ [])
snoc-IsValid c rows free e v = record {
  ids = λ i. ground (
    arith,
    count-snoc (has_id i) rows (to_row c),
    v.ids i,
    eq_iff c.id i,
    count_mono (has_id c.id) (conflicts c) (λ r m. ground arith) rows,
  );
  pairs = λ o a. ground (
    arith,
    count-snoc (is_pair o a) rows (to_row c),
    v.pairs o a,
    eq_iff c.owner_agent_id o,
    eq_iff c.contact_agent_id a,
    count_mono (is_pair c.owner_agent_id c.contact_agent_id) (conflicts c) (λ r m. ground arith)
        rows,
  );
  entries = All-append IsEntry rows (to_row c ∷ []) v.entries (e, tt);
}

delete-IsValid : (p : Contact → Bool) (rows : List Contact) → IsValid rows → IsValid (delete p rows)
delete-IsValid p rows v = record {
  ids = λ i. omega (arith, count-remove-le (has_id i) p rows, v.ids i);
  pairs = λ o a. omega (arith, count-remove-le (is_pair o a) p rows, v.pairs o a);
  entries = All-remove IsEntry p rows v.entries;
}

-- The tests of Add, read off.
entry_of_tests :
    (owner contact : String)
    → (owner == "" || contact == "") ≡ false
    → (owner == contact) ≡ false
    → (owner ≢ contact) × (owner ≢ "") × (contact ≢ "")
entry_of_tests owner contact h k = (
  λ e. ground (arith, eq_iff owner contact),
  λ e. ground (arith, eq_iff owner ""),
  λ e. ground (arith, eq_iff contact ""),
)

Store-add-IsValid :
    (up : Bool) (c : Contact) (rows rows' : List Contact)
    → Store.add up c rows ≡ ok rows'
    → IsEntry c
    → IsValid rows
    → IsValid rows'
Store-add-IsValid up c rows rows' h e v =
    let (same, free) = add-inv up c rows rows' h in
    subst IsValid (sym same) (snoc-IsValid c rows free e v)

-- What a call leaves, when the store's part is known.
after-IsValid :
    (v : Contact) (r : Result StoreError (List Contact)) (rows : List Contact)
    → ((rows' : List Contact) → r ≡ ok rows' → IsValid rows')
    → IsValid rows
    → IsValid (after v r rows).0
unfolding after
after-IsValid v (ok rows') rows k h = k rows' refl
after-IsValid v (err e) rows k h = h

add-IsValid :
    (up : Bool) (id : String) (now : ℕ) (owner contact alias : String) (expires : Option ℕ)
    (rows : List Contact)
    → IsValid rows
    → IsValid (add up id now owner contact alias expires rows).0
unfolding add
add-IsValid up id now owner contact alias expires rows v =
    elim (Bool-cases (owner == "" || contact == "")) [
      | inl e ↦ rw e v
      | inr e ↦ elim (Bool-cases (owner == contact)) [
        | inl d ↦ rw (e, d) v
        | inr d ↦
            rw (e, d)
              (after-IsValid c (Store.add up c rows) rows
                (λ rows' h.
                  Store-add-IsValid up c rows rows' h (entry_of_tests owner contact e d) v)
                v)
      ]
    ]
  where
    c : Contact
    c = record {
      id = id;
      owner_agent_id = owner;
      contact_agent_id = contact;
      alias = alias;
      expires_at = expires;
      created_at = now;
    }

remove-IsValid :
    (up : Bool) (owner contact : String) (rows : List Contact)
    → IsValid rows
    → IsValid (remove up owner contact rows).0
unfolding remove
remove-IsValid up owner contact rows v =
    ground (arith, delete-IsValid (is_pair owner contact) rows v)

step-IsValid : (rows : List Contact) (c : Call) → IsValid rows → IsValid (step rows c)
unfolding step
step-IsValid rows (adds up id now o c a e) v = add-IsValid up id now o c a e rows v
step-IsValid rows (removes up o c) v = remove-IsValid up o c rows v

run_from-IsValid : (rows : List Contact) (cs : List Call) → IsValid rows → IsValid (run rows cs)
unfolding run
run_from-IsValid rows [] v = v
run_from-IsValid rows (c ∷ cs) v = run_from-IsValid (step rows c) cs (step-IsValid rows c v)

-- After any calls of Add and Remove from the empty table, in any order and whatever the driver does,
-- a row identifier and a pair of agents stand in one row at most, and every row names two different
-- agents, neither of them empty.
pub run-IsValid : (cs : List Call) → IsValid (run [] cs)
run-IsValid cs = run_from-IsValid [] cs (record {
  ids = λ i. unfold count in omega arith;
  pairs = λ o c. unfold count in omega arith;
  entries = tt;
})
