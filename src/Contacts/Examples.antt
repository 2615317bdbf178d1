-- ===== src/Contacts/Examples.antt =====
-- Runs of internal/contacts, and its theorems at them.
use peerclaw_server.Prelude.{
  ℕ, ◌+◌, ◌*◌, ◌/◌, ◌≤◌, ◌≡◌, refl, some, [], ◌∷◌, true, ok, second, arith,
}
use peerclaw_server.Contacts.Store
use peerclaw_server.Contacts.Postgres
use peerclaw_server.Contacts.Backends.{
  adds, removes, run_sqlite, run_postgres, verdict, is_allowed-agrees,
}
use peerclaw_server.Contacts.Store.{Contact}
use peerclaw_server.Contacts.Service.{add, is_allowed}
use peerclaw_server.Contacts.Whitelist.{add-is_allowed}

abbrev bob_until_9 : Contact
bob_until_9 = record {
  id = "u1";
  owner_agent_id = "alice";
  contact_agent_id = "bob";
  alias = "b";
  expires_at = some 9_500_000_000;
  created_at = 1_700_000_000;
}

listed : (add true "u1" 1_700_000_000 "alice" "bob" "b" (some 9_500_000_000) []).1 ≡ ok bob_until_9
unfolding add
listed = refl

add-is_allowed_example :
    is_allowed true "bob" "alice" 8_000_000_000
      (add true "u1" 1_700_000_000 "alice" "bob" "b" (some 9_500_000_000) []).0
    ≡ ok true
add-is_allowed_example =
    add-is_allowed true "u1" 1_700_000_000 "alice" "bob" "b" (some 9_500_000_000) [] listed "bob"
      "alice" 8_000_000_000

-- Postgres keeps microseconds.
micros : (t : ℕ) → (t ≤ t / 1_000 * 1_000 + second) × (t / 1_000 * 1_000 ≤ t + second)
micros t = (omega arith, omega arith)

is_allowed-agrees_example :
    (verdict (
        Store.is_allowed true "alice" "bob"
          (3 * second + 2 * second)
          (run_sqlite [] (adds true bob_until_9 ∷ removes true "alice" "carol" ∷ [])))
      ≤ verdict (
          Postgres.is_allowed true "alice" "bob" (3 * second) (
            run_postgres
              (λ t. t / 1_000 * 1_000)
              []
              (adds true bob_until_9 ∷ removes true "alice" "carol" ∷ []))))
    × (verdict (
          Postgres.is_allowed true "alice" "bob" (3 * second + 2 * second) (
            run_postgres
              (λ t. t / 1_000 * 1_000)
              []
              (adds true bob_until_9 ∷ removes true "alice" "carol" ∷ [])))
        ≤ verdict (
            Store.is_allowed true "alice" "bob"
              (3 * second)
              (run_sqlite [] (adds true bob_until_9 ∷ removes true "alice" "carol" ∷ []))))
is_allowed-agrees_example =
    is_allowed-agrees (λ t. t / 1_000 * 1_000)
      (adds true bob_until_9 ∷ removes true "alice" "carol" ∷ []) "alice" "bob" (3 * second) micros
