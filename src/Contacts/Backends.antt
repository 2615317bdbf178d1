-- ===== src/Contacts/Backends.antt =====
-- The two stores of internal/contacts, sqlite.go and postgres.go, keep the same contacts, with expiries
-- that differ by the fraction of a second that SQLite's texts drop.
use peerclaw_server.Prelude.{
  ℕ, ◌+◌, ◌*◌, ◌≤◌, ◌<◌, ◌≡◌, refl, inl, inr, String, Option, none, some, List, [], ◌∷◌, ◌++◌, Bool,
  true, false, ◌&&◌, ◌||◌, ◌==◌, ltb, if◌then◌else◌, Result, ok, err, StoreError, second, rfc3339,
  rfc3339_null, arith, Bool-cases,
}
use mathlib.Core.Option
use peerclaw_server.Prelude.Table.{
  count, Related, Agree, Related-snoc, flipped, count-Related, count-Related-le, remove-Related,
}
use peerclaw_server.Contacts.Store
use peerclaw_server.Contacts.Store.{Contact, is_pair, conflicts}
use peerclaw_server.Contacts.Postgres
use peerclaw_server.Prelude

-- A TIMESTAMPTZ column gives a time back to within a second; Postgres keeps microseconds.
abbrev pub IsPrecise : (ℕ → ℕ) → Type 0
IsPrecise keep = (t : ℕ) → (t ≤ keep t + second) × (keep t ≤ t + second)

-- An expiry of Postgres and one of SQLite that stand for the same time.
abbrev pub IsNear : Option ℕ → Option ℕ → Type 0
IsNear none none = Unit
IsNear none (some e) = ⊥
IsNear (some e) none = ⊥
IsNear (some e) (some f) = (f ≤ e + second) × (e ≤ f + 2 * second)

-- A row of Postgres and the row of SQLite that stand for the same contact.
pub record IsSame (p l : Contact) : Type 0 where
  pub id : p.id ≡ l.id
  pub owner : p.owner_agent_id ≡ l.owner_agent_id
  pub contact : p.contact_agent_id ≡ l.contact_agent_id
  pub alias : p.alias ≡ l.alias
  pub expiry : IsNear p.expires_at l.expires_at

near-keep :
    (keep : ℕ → ℕ) (e : Option ℕ) → IsPrecise keep → IsNear (Option.map keep e) (rfc3339_null e)
near-keep keep none precise = tt
near-keep keep (some e) precise =
    (omega (arith, (precise e).0, (precise e).1), omega (arith, (precise e).0, (precise e).1))

row-IsSame :
    (keep : ℕ → ℕ) (c : Contact) → IsPrecise keep → IsSame (Postgres.to_row keep c) (Store.to_row c)
row-IsSame keep c precise = record {
  id = refl;
  owner = refl;
  contact = refl;
  alias = refl;
  expiry = near-keep keep c.expires_at precise;
}

add-Agree :
    (keep : ℕ → ℕ) (up : Bool) (c : Contact) (ps ls : List Contact)
    → IsPrecise keep
    → Related IsSame ps ls
    → Agree (Related IsSame) (Postgres.add keep up c ps) (Store.add up c ls)
unfolding Postgres.add Store.add
add-Agree keep false c ps ls precise h = refl
add-Agree keep true c ps ls precise h =
    rw
      (count-Related IsSame (conflicts c) (conflicts c)
        (λ p l s. rw (s.id, s.owner, s.contact) refl) ps ls h)
      (elim (Bool-cases (ltb 0 (count (conflicts c) ls))) [
        | inl taken ↦ rw taken refl
        | inr free ↦ rw free (
            Related-snoc IsSame ps ls (Postgres.to_row keep c) (Store.to_row c) h
              (row-IsSame keep c precise))
      ])

remove-Agree :
    (up : Bool) (owner contact : String) (ps ls : List Contact)
    → Related IsSame ps ls
    → Agree
        (Related IsSame)
        (Postgres.remove up owner contact ps)
        (Store.remove up owner contact ls)
unfolding Postgres.remove Store.remove
remove-Agree false owner contact ps ls h = refl
remove-Agree true owner contact ps ls h =
    rw
      (count-Related IsSame (is_pair owner contact) (is_pair owner contact)
        (λ p l s. rw (s.owner, s.contact) refl) ps ls h)
      (elim (Bool-cases (ltb 0 (count (is_pair owner contact) ls))) [
        | inl there ↦ rw there (
            remove-Related IsSame (is_pair owner contact) (is_pair owner contact)
              (λ p l s. rw (s.owner, s.contact) refl) ps ls h)
        | inr absent ↦ rw absent refl
      ])

-- A write, with the driver's verdict.
pub data Write : Type 0 where
  adds : Bool → Contact → Write
  removes : Bool → String → String → Write

-- The table after a statement that may fail.
abbrev pub after {ℓ} : {A : Type ℓ} → A → Result StoreError A → A
after rows (ok rows') = rows'
after rows (err e) = rows

unfoldable pub run_postgres : (ℕ → ℕ) → List Contact → List Write → List Contact
unfolding Postgres.add Postgres.remove
run_postgres keep rows [] = rows
run_postgres keep rows (adds up c ∷ ws) =
    run_postgres keep (after rows (Postgres.add keep up c rows)) ws
run_postgres keep rows (removes up owner contact ∷ ws) =
    run_postgres keep (after rows (Postgres.remove up owner contact rows)) ws

unfoldable pub run_sqlite : List Contact → List Write → List Contact
unfolding Store.add Store.remove
run_sqlite rows [] = rows
run_sqlite rows (adds up c ∷ ws) = run_sqlite (after rows (Store.add up c rows)) ws
run_sqlite rows (removes up owner contact ∷ ws) =
    run_sqlite (after rows (Store.remove up owner contact rows)) ws

after-Related :
    (ps ls : List Contact) (p l : Result StoreError (List Contact))
    → Related IsSame ps ls
    → Agree (Related IsSame) p l
    → Related IsSame (after ps p) (after ls l)
after-Related ps ls (ok a) (ok b) h r = r
after-Related ps ls (ok a) (err e) h r = absurd r
after-Related ps ls (err e) (ok b) h r = absurd r
after-Related ps ls (err e) (err f) h r = h

pub run-Related :
    (keep : ℕ → ℕ) (ps ls : List Contact) (ws : List Write)
    → IsPrecise keep
    → Related IsSame ps ls
    → Related IsSame (run_postgres keep ps ws) (run_sqlite ls ws)
unfolding run_postgres run_sqlite
run-Related keep ps ls [] precise h = h
run-Related keep ps ls (adds up c ∷ ws) precise h =
    run-Related keep (after ps (Postgres.add keep up c ps)) (after ls (Store.add up c ls)) ws
      precise
      (after-Related ps ls (Postgres.add keep up c ps) (Store.add up c ls) h
        (add-Agree keep up c ps ls precise h))
run-Related keep ps ls (removes up owner contact ∷ ws) precise h =
    run-Related keep (after ps (Postgres.remove up owner contact ps))
      (after ls (Store.remove up owner contact ls)) ws precise
      (after-Related ps ls (Postgres.remove up owner contact ps) (Store.remove up owner contact ls)
        h (remove-Agree up owner contact ps ls h))

sqlite_later :
    (now : ℕ) (e f : Option ℕ)
    → IsNear e f
    → Prelude.unexpired (now + 2 * second) f ≡ true
    → Postgres.unexpired now e ≡ true
sqlite_later now none none h u = refl
sqlite_later now none (some f) h u = refl
sqlite_later now (some e) none h u = absurd h
sqlite_later now (some e) (some f) h u = ground (arith, h.0)

postgres_later :
    (now : ℕ) (e f : Option ℕ)
    → IsNear e f
    → Postgres.unexpired (now + 2 * second) e ≡ true
    → Prelude.unexpired now f ≡ true
postgres_later now none none h u = refl
postgres_later now none (some f) h u = absurd h
postgres_later now (some e) none h u = refl
postgres_later now (some e) (some f) h u = ground (arith, h.1)

later :
    (owner contact : String) (now : ℕ) (l p : Contact)
    → IsSame p l
    → Store.admits owner contact (now + 2 * second) l ≡ true
    → Postgres.admits owner contact now p ≡ true
later owner contact now l p s a =
    rw (s.owner, s.contact) (ground (arith, sqlite_later now p.expires_at l.expires_at s.expiry))

later' :
    (owner contact : String) (now : ℕ) (p l : Contact)
    → IsSame p l
    → Postgres.admits owner contact (now + 2 * second) p ≡ true
    → Store.admits owner contact now l ≡ true
later' owner contact now p l s a =
    ground (arith, s.owner, s.contact, postgres_later now p.expires_at l.expires_at s.expiry)

-- 1 for the answer yes, 0 for no and for an error.
abbrev pub verdict : Result StoreError Bool → ℕ
verdict (ok b) = if b then 1 else 0
verdict (err e) = 0

-- The same writes to both stores, from empty tables, admit the same contacts up to two seconds: whom the
-- one admits at a time, the other admits two seconds before it. The columns of Postgres are precise to
-- a second.
pub is_allowed-agrees :
    (keep : ℕ → ℕ) (ws : List Write) (owner contact : String) (now : ℕ)
    → IsPrecise keep
    → (verdict (Store.is_allowed true owner contact (now + 2 * second) (run_sqlite [] ws))
        ≤ verdict (Postgres.is_allowed true owner contact now (run_postgres keep [] ws)))
      × (verdict
            (Postgres.is_allowed true owner contact (now + 2 * second) (run_postgres keep [] ws))
          ≤ verdict (Store.is_allowed true owner contact now (run_sqlite [] ws)))
unfolding Store.is_allowed Postgres.is_allowed
is_allowed-agrees keep ws owner contact now precise =
    let same = run-Related keep [] [] ws precise tt in
    (
      ground (
        arith,
        count-Related-le (λ l p. IsSame p l) (Store.admits owner contact (now + 2 * second))
            (Postgres.admits owner contact now) (later owner contact now) (run_sqlite [] ws)
            (run_postgres keep [] ws)
            (flipped IsSame (run_postgres keep [] ws) (run_sqlite [] ws) same),
      ),
      ground (
        arith,
        count-Related-le IsSame (Postgres.admits owner contact (now + 2 * second))
            (Store.admits owner contact now) (later' owner contact now) (run_postgres keep [] ws)
            (run_sqlite [] ws) same,
      ),
    )
