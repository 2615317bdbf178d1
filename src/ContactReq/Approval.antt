-- ===== src/ContactReq/Approval.antt =====
-- What an approval does to the whitelists of the two agents.
use peerclaw_server.Prelude.{
  ℕ, ◌≡◌, ◌≢◌, refl, sym, ap, ◌∙◌, inl, inr, String, none, List, [], ◌∷◌, ◌++◌, Bool, true, false,
  ◌&&◌, ◌==◌, if◌then◌else◌, ok, Env, arith, eq_iff, Result-cases, Option-cases, ◌<◌,
}
use peerclaw_server.Prelude.Table.{count, count_mono, count-snoc, count-or_absent, find?, find?-All}
use peerclaw_server.Contacts.Store.{Contact}
use peerclaw_server.Contacts.Store as ContactStore
use peerclaw_server.Contacts.Service as Contacts
use peerclaw_server.Contacts.Whitelist.{add-is_allowed, add_failure}
use peerclaw_server.ContactReq.Store.{ContactRequest, has_id}
use peerclaw_server.ContactReq.Service.{Db, approve, connect}
use peerclaw_server.ContactReq.Invariant.{IsValid, IsRequest}

abbrev entry : String → ℕ → String → String → Contact
entry id now owner contact = record {
  id = id;
  owner_agent_id = owner;
  contact_agent_id = contact;
  alias = "";
  expires_at = none;
  created_at = now;
}

module _ (id : String) (now : ℕ) (owner contact : String) (rows : List Contact) where
  add_succeeds :
      (up : Bool)
      → up ≡ true
      → owner ≢ ""
      → contact ≢ ""
      → owner ≢ contact
      → count (ContactStore.conflicts (entry id now owner contact)) rows ≡ 0
      → (Contacts.add up id now owner contact "" none rows).1 ≡ ok (entry id now owner contact)
  unfolding Contacts.add
  add_succeeds up u o c d free =
      ground (arith, eq_iff owner "", eq_iff contact "", eq_iff owner contact)

  add_appends :
      (up : Bool)
      → up ≡ true
      → owner ≢ ""
      → contact ≢ ""
      → owner ≢ contact
      → count (ContactStore.conflicts (entry id now owner contact)) rows ≡ 0
      → (Contacts.add up id now owner contact "" none rows).0
        ≡ rows ++ ContactStore.to_row (entry id now owner contact) ∷ []
  unfolding Contacts.add
  add_appends up u o c d free =
      ground (arith, eq_iff owner "", eq_iff contact "", eq_iff owner contact)

  -- An entry of another pair changes nothing, whether it is added or refused.
  add_other :
      (up : Bool) (f t : String) (at : ℕ)
      → (t == owner && f == contact) ≡ false
      → Contacts.is_allowed true f t at (Contacts.add up id now owner contact "" none rows).0
        ≡ Contacts.is_allowed true f t at rows
  add_other up f t at e =
      elim (Result-cases (Contacts.add up id now owner contact "" none rows).1) [
        | inl (c, h) ↦ rw (add-is_allowed up id now owner contact "" none rows h f t at, e) refl
        | inr (x, h) ↦ rw (add_failure up id now owner contact "" none rows x h) refl
      ]

  -- A pair that is listed already is not listed anew.
  add_listed :
      (up : Bool)
      → 0 < count (ContactStore.is_pair owner contact) rows
      → (Contacts.add up id now owner contact "" none rows).0 ≡ rows
  unfolding Contacts.add
  add_listed up h = ground (
    arith,
    count_mono (ContactStore.is_pair owner contact)
        (ContactStore.conflicts (entry id now owner contact)) (λ r m. ground arith) rows,
  )

-- An approved request was pending, with two different agents.
approved-inv :
    (w : Bool) (env : Env) (i : String) (db : Db) (g : ContactRequest)
    → IsValid db.requests
    → (approve w env i db).1 ≡ ok g
    → IsRequest g
      × ((approve w env i db).0.contacts ≡ (if w then connect env g db.contacts else db.contacts))
unfolding approve
approved-inv w env i db g v h = elim (Option-cases (find? (has_id i) db.requests)) [
  | inl n ↦ absurd (ground arith)
  | inr (r, n) ↦ ground (arith, find?-All (has_id i) IsRequest db.requests r v.entries n)
]

ne_agents : (a b c d : String) → a ≢ b → (b == a && c == d) ≡ false
ne_agents a b c d h = ground (arith, eq_iff b a)

connect_listed :
    (env : Env) (g : ContactRequest) (contacts : List Contact) (at : ℕ)
    → g.from_agent_id ≢ g.to_agent_id
    → 0 < count (ContactStore.is_pair g.to_agent_id g.from_agent_id) contacts
    → Contacts.is_allowed true g.from_agent_id g.to_agent_id at (connect env g contacts)
      ≡ Contacts.is_allowed true g.from_agent_id g.to_agent_id at contacts
unfolding connect
connect_listed env g contacts at d listed =
    rw
      (
        add_listed (env.uuid 0) (env.now 1) g.to_agent_id g.from_agent_id contacts (env.up 2)
            listed,
        connect,
      )
      (add_other (env.uuid 1) (env.now 2) g.from_agent_id g.to_agent_id contacts (env.up 3)
        g.from_agent_id g.to_agent_id at
        (ne_agents g.from_agent_id g.to_agent_id g.from_agent_id g.to_agent_id d))

-- If the receiver lists the sender already when the request is approved, the approval changes nothing
-- for the sender: an entry that has expired stays, and the sender stays shut out.
pub approve_keeps_listed :
    (with_contacts : Bool) (env : Env) (i : String) (db : Db) (g : ContactRequest) (at : ℕ)
    → IsValid db.requests
    → (approve with_contacts env i db).1 ≡ ok g
    → 0 < count (ContactStore.is_pair g.to_agent_id g.from_agent_id) db.contacts
    → Contacts.is_allowed true g.from_agent_id g.to_agent_id at
        (approve with_contacts env i db).0.contacts
      ≡ Contacts.is_allowed true g.from_agent_id g.to_agent_id at db.contacts
approve_keeps_listed w env i db g at v h listed = ground (
  arith,
  approved-inv w env i db g v h,
  connect_listed env g db.contacts at (approved-inv w env i db g v h).0.other listed,
)

-- What an approval relies on to list both agents: its statements are run, its new identifiers are
-- new, and neither agent lists the other yet.
pub record IsFresh (env : Env) (a b : String) (contacts : List Contact) : Type 0 where
  pub up : (k : ℕ) → env.up k ≡ true
  pub distinct : env.uuid 0 ≢ env.uuid 1
  pub first : count (λ (r : Contact). r.id == env.uuid 0) contacts ≡ 0
  pub second : count (λ (r : Contact). r.id == env.uuid 1) contacts ≡ 0
  pub there : count (ContactStore.is_pair b a) contacts ≡ 0
  pub back : count (ContactStore.is_pair a b) contacts ≡ 0

module _ (env : Env) (g : ContactRequest) (contacts : List Contact) (r : IsRequest g)
    (fresh : IsFresh env g.from_agent_id g.to_agent_id contacts) where
  abbrev one : List Contact
  one =
      (Contacts.add (env.up 2) (env.uuid 0) (env.now 1) g.to_agent_id g.from_agent_id "" none
        contacts).0

  abbrev back_entry : Contact
  back_entry = entry (env.uuid 1) (env.now 2) g.from_agent_id g.to_agent_id

  free_there :
      count
        (ContactStore.conflicts (entry (env.uuid 0) (env.now 1) g.to_agent_id g.from_agent_id))
        contacts
      ≡ 0
  free_there =
      count-or_absent (λ (c : Contact). c.id == env.uuid 0)
        (ContactStore.is_pair g.to_agent_id g.from_agent_id) contacts fresh.first fresh.there

  one-eq :
      one
      ≡ contacts
        ++ ContactStore.to_row (entry (env.uuid 0) (env.now 1) g.to_agent_id g.from_agent_id) ∷ []
  one-eq =
      add_appends (env.uuid 0) (env.now 1) g.to_agent_id g.from_agent_id contacts (env.up 2)
        (fresh.up 2) r.to_agent r.from_agent (λ e. r.other (sym e)) free_there

  free_back : count (ContactStore.conflicts back_entry) one ≡ 0
  free_back = rw one-eq (
      ground (
        arith,
        count-snoc (ContactStore.conflicts back_entry) contacts
            (ContactStore.to_row (entry (env.uuid 0) (env.now 1) g.to_agent_id g.from_agent_id)),
        count-or_absent (λ (c : Contact). c.id == env.uuid 1)
            (ContactStore.is_pair g.from_agent_id g.to_agent_id) contacts fresh.second fresh.back,
        eq_iff (env.uuid 0) (env.uuid 1),
        eq_iff g.to_agent_id g.from_agent_id,
        r.other,
        fresh.distinct,
      ))

  connect-is_allowed :
      (f t : String) (at : ℕ)
      → Contacts.is_allowed true f t at (connect env g contacts) ≡ (
          if t == g.from_agent_id && f == g.to_agent_id
          then ok true
          else if t == g.to_agent_id && f == g.from_agent_id
          then ok true
          else Contacts.is_allowed true f t at contacts)
  unfolding connect
  connect-is_allowed f t at =
      add-is_allowed (env.up 3) (env.uuid 1) (env.now 2) g.from_agent_id g.to_agent_id "" none one
        (add_succeeds (env.uuid 1) (env.now 2) g.from_agent_id g.to_agent_id one (env.up 3)
          (fresh.up 3) r.from_agent r.to_agent r.other free_back)
        f t at
      ∙ ap (λ z. if t == g.from_agent_id && f == g.to_agent_id then ok true else z)
          (add-is_allowed (env.up 2) (env.uuid 0) (env.now 1) g.to_agent_id g.from_agent_id "" none
            contacts
            (add_succeeds (env.uuid 0) (env.now 1) g.to_agent_id g.from_agent_id contacts (env.up 2)
              (fresh.up 2) r.to_agent r.from_agent (λ e. r.other (sym e)) free_there)
            f t at)

-- An approval with a contacts service lists the two agents with each other: from then on each may
-- signal to the other, at any time, and nothing changes for any other pair. Its statements are taken
-- as run, its two new identifiers as new, and the agents as not yet listed by each other.
pub approve-is_allowed :
    (env : Env) (i : String) (db : Db) (g : ContactRequest) (f t : String) (at : ℕ)
    → IsValid db.requests
    → (approve true env i db).1 ≡ ok g
    → IsFresh env g.from_agent_id g.to_agent_id db.contacts
    → Contacts.is_allowed true f t at (approve true env i db).0.contacts ≡ (
        if t == g.from_agent_id && f == g.to_agent_id
        then ok true
        else if t == g.to_agent_id && f == g.from_agent_id
        then ok true
        else Contacts.is_allowed true f t at db.contacts)
approve-is_allowed env i db g f t at v h fresh =
    let (request, contacts) = approved-inv true env i db g v h in
    rw contacts (connect-is_allowed env g db.contacts request fresh f t at)
