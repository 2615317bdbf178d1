-- ===== src/Verification/Challenger.antt =====
-- InitiateChallenge of internal/verification/challenger.go, and handleVerifyEndpoint of
-- internal/server/public_handlers.go. The request to the endpoint, JSON, hexadecimal and Ed25519 are
-- parameters; a text of bytes stands for a []byte.
use peerclaw_server.Prelude.{
  ℕ, ◌+◌, ◌*◌, String, Option, none, some, Bool, false, not, ◌==◌, nat_eq, if◌then◌else◌, Result,
  ok, err, StoreError, Driver, second,
}
use peerclaw_server.Security.Url.{Net, UrlError, validate_url}
use peerclaw_server.Verification.Challenges.{
  Challenge, Rows, insert_challenge, update_challenge_status,
}

abbrev pub challenge_ttl : ℕ
challenge_ttl = 300 * second

-- The answer of the endpoint; the body is none where it cannot be read.
pub record Answer : Type 0 where
  pub status : ℕ
  pub body : Option String

pub record VerifyResponse : Type 0 where
  pub challenge : String
  pub signature : String

-- What one call takes from outside.
pub record Outside : Type 0 where
  pub up : Driver
  pub now : ℕ
  pub net : Net
  -- 32 random bytes in hexadecimal, none where rand.Read fails
  pub nonce : Option String
  -- the GET request for an endpoint's URL and a challenge, none on its error
  pub get : String → String → Option Answer
  -- json.Unmarshal, none on its error
  pub decode : String → Option VerifyResponse
  -- hex.DecodeString, none on its error
  pub unhex : String → Option String
  -- len(b)
  pub size : String → ℕ
  -- ed25519.Verify of a public key, a message and a signature
  pub verify : String → String → String → Bool

pub data Error : Type 0 where
  request_failed bad_status unreadable bad_format mismatch bad_key bad_key_size : Error
  bad_signature_encoding signature_failed no_nonce : Error
  invalid_url : UrlError → Error
  store_failed : StoreError → Error

unfoldable pub check_signature : Outside → String → String → Option String → Result Error (Unit {0})
check_signature o key nonce none = err bad_signature_encoding
check_signature o key nonce (some s) =
    if not (o.verify key nonce s) then err signature_failed else ok tt

unfoldable pub check_key : Outside → String → String → Option String → Result Error (Unit {0})
unfolding check_signature
check_key o nonce signature none = err bad_key
check_key o nonce signature (some key) =
    if not (nat_eq (o.size key) 32)
    then err bad_key_size
    else check_signature o key nonce (o.unhex signature)

unfoldable pub check_response :
    Outside → String → String → Option VerifyResponse → Result Error (Unit {0})
unfolding check_key
check_response o nonce public_key none = err bad_format
check_response o nonce public_key (some r) =
    if not (r.challenge == nonce)
    then err mismatch
    else check_key o nonce r.signature (o.unhex public_key)

unfoldable pub check_body : Outside → String → String → Option String → Result Error (Unit {0})
unfolding check_response
check_body o nonce public_key none = err unreadable
check_body o nonce public_key (some body) = check_response o nonce public_key (o.decode body)

unfoldable pub check_answer : Outside → String → String → Option Answer → Result Error (Unit {0})
unfolding check_body
check_answer o nonce public_key none = err request_failed
check_answer o nonce public_key (some a) =
    if not (nat_eq a.status 200) then err bad_status else check_body o nonce public_key a.body

-- `_ = c.store.UpdateChallengeStatus(…)`: an error leaves the rows.
abbrev pub kept : Rows → Result StoreError Rows → Rows
kept rows (ok rows') = rows'
kept rows (err e) = rows

pub record ChallengeResult : Type 0 where
  pub challenge : String
  pub expires_at : ℕ

unfoldable pub conclude :
    Outside → String → String → Rows → Result Error (Unit {0}) → Rows × Result Error ChallengeResult
unfolding update_challenge_status
conclude o agent nonce rows (err e) =
    (kept rows (update_challenge_status (o.up 1) agent nonce "failed" rows), err e)
conclude o agent nonce rows (ok tt) = (
  kept rows (update_challenge_status (o.up 1) agent nonce "verified" rows),
  ok (record { challenge = nonce; expires_at = o.now + challenge_ttl }),
)

unfoldable pub new_challenge : Outside → String → String → Challenge
new_challenge o agent nonce = record {
  agent_id = agent;
  challenge = nonce;
  created_at = o.now;
  expires_at = o.now + challenge_ttl;
  status = "pending";
}

unfoldable pub challenge_endpoint :
    Outside
    → String
    → String
    → String
    → String
    → Rows
    → Result StoreError Rows
    → Rows × Result Error ChallengeResult
unfolding conclude check_answer
challenge_endpoint o agent url public_key nonce rows (err e) = (rows, err (store_failed e))
challenge_endpoint o agent url public_key nonce rows (ok rows') =
    conclude o agent nonce rows' (check_answer o nonce public_key (o.get url nonce))

unfoldable pub with_nonce :
    Outside → String → String → String → Option String → Rows → Rows × Result Error ChallengeResult
unfolding challenge_endpoint insert_challenge new_challenge
with_nonce o agent url public_key none rows = (rows, err no_nonce)
with_nonce o agent url public_key (some nonce) rows =
    challenge_endpoint o agent url public_key nonce rows
      (insert_challenge (o.up 0) (new_challenge o agent nonce) rows)

unfoldable pub check_endpoint :
    Outside
    → String
    → String
    → String
    → Result UrlError (Unit {0})
    → Rows
    → Rows × Result Error ChallengeResult
unfolding with_nonce
check_endpoint o agent url public_key (err e) rows = (rows, err (invalid_url e))
check_endpoint o agent url public_key (ok tt) rows = with_nonce o agent url public_key o.nonce rows

unfoldable pub initiate_challenge :
    Outside → String → String → String → Rows → Rows × Result Error ChallengeResult
unfolding check_endpoint validate_url
initiate_challenge o agent url public_key rows =
    check_endpoint o agent url public_key (validate_url o.net false url) rows

-- What the reputation engine is told: SetVerified, or RecordEvent of a failure.
pub data Notice : Type 0 where
  sets_verified records_failure : String → Notice

unfoldable pub answer_verify :
    String → Rows × Result Error ChallengeResult → Rows × ℕ × Option Notice
answer_verify agent (rows, ok r) = (rows, 200, some (sets_verified agent))
answer_verify agent (rows, err e) = (rows, 400, some (records_failure agent))

-- The card that the registry has for the agent: its endpoint's URL and its public key. The server has a
-- challenger and a reputation engine.
unfoldable pub handle_verify_endpoint :
    Outside → String → Option (String × String) → Rows → Rows × ℕ × Option Notice
unfolding answer_verify initiate_challenge
handle_verify_endpoint o agent none rows = (rows, 404, none)
handle_verify_endpoint o agent (some (url, public_key)) rows =
    if url == ""
    then (rows, 400, none)
    else if public_key == ""
    then (rows, 400, none)
    else answer_verify agent (initiate_challenge o agent url public_key rows)
