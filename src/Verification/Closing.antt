-- ===== src/Verification/Closing.antt =====
-- No call of InitiateChallenge of internal/verification leaves its challenge open.
use peerclaw_server.Prelude.{
  ◌≤◌, ◌≡◌, refl, String, Option, none, some, [], ◌∷◌, ◌++◌, Bool, true, false, ◌==◌, Result, ok,
  err, arith, eq_refl,
}
use peerclaw_server.Prelude.Table.{count, update, count-snoc}
use peerclaw_server.Security.Url.{UrlError, validate_url}
use peerclaw_server.Verification.Challenges.{
  Challenge, Rows, is_key, to_row, set_status, insert_challenge, update_challenge_status,
}
use peerclaw_server.Verification.Challenger.{
  Outside, Error, check_answer, kept, conclude, new_challenge, challenge_endpoint, with_nonce,
  check_endpoint, initiate_challenge,
}

abbrev pub is_pending : Challenge → Bool
is_pending c = c.status == "pending"

-- A status that is written over the last row, and over others, leaves no more pending rows than there
-- were before it.
count-closed :
    (agent nonce status : String) (rows : Rows) (c : Challenge)
    → (status == "pending") ≡ false
    → is_key agent nonce c ≡ true
    → count is_pending (update (is_key agent nonce) (set_status status) (rows ++ c ∷ []))
      ≤ count is_pending rows
unfolding count update
count-closed agent nonce status [] c s k = ground arith
count-closed agent nonce status (r ∷ rows) c s k =
    ground (arith, count-closed agent nonce status rows c s k)

update-closed :
    (agent nonce status : String) (rows : Rows) (c : Challenge)
    → (status == "pending") ≡ false
    → is_key agent nonce c ≡ true
    → count is_pending
        (kept (rows ++ c ∷ []) (update_challenge_status true agent nonce status (rows ++ c ∷ [])))
      ≤ count is_pending rows
unfolding update_challenge_status
update-closed agent nonce status rows c s k =
    ground
      (arith, count-snoc (is_key agent nonce) rows c, count-closed agent nonce status rows c s k)

conclude-closed :
    (o : Outside) (agent nonce : String) (rows : Rows) (c : Challenge) (v : Result Error (Unit {0}))
    → o.up 1 ≡ true
    → is_key agent nonce c ≡ true
    → count is_pending (conclude o agent nonce (rows ++ c ∷ []) v).0 ≤ count is_pending rows
unfolding conclude
conclude-closed o agent nonce rows c (err x) up k =
    rw up (update-closed agent nonce "failed" rows c refl k)
conclude-closed o agent nonce rows c (ok tt) up k =
    rw up (update-closed agent nonce "verified" rows c refl k)

with_nonce-closed :
    (o : Outside) (agent url public_key : String) (n : Option String) (rows : Rows)
    → o.up 1 ≡ true
    → count is_pending (with_nonce o agent url public_key n rows).0 ≤ count is_pending rows
unfolding with_nonce challenge_endpoint insert_challenge new_challenge
with_nonce-closed o agent url public_key none rows up = omega arith
with_nonce-closed o agent url public_key (some nonce) rows up = ground (
  arith,
  conclude-closed o agent nonce rows (to_row (new_challenge o agent nonce))
      (check_answer o nonce public_key (o.get url nonce)) up
      (ground (arith, eq_refl agent, eq_refl nonce)),
)

check_endpoint-closed :
    (o : Outside) (agent url public_key : String) (v : Result UrlError (Unit {0})) (rows : Rows)
    → o.up 1 ≡ true
    → count is_pending (check_endpoint o agent url public_key v rows).0 ≤ count is_pending rows
unfolding check_endpoint
check_endpoint-closed o agent url public_key (err x) rows up = omega arith
check_endpoint-closed o agent url public_key (ok tt) rows up =
    with_nonce-closed o agent url public_key o.nonce rows up

-- On every branch InitiateChallenge leaves no more pending challenges than it found, where the driver
-- runs the update of the status.
pub initiate_challenge-closed :
    (o : Outside) (agent url public_key : String) (rows : Rows)
    → o.up 1 ≡ true
    → count is_pending (initiate_challenge o agent url public_key rows).0 ≤ count is_pending rows
unfolding initiate_challenge
initiate_challenge-closed o agent url public_key rows up =
    check_endpoint-closed o agent url public_key (validate_url o.net false url) rows up
