-- ===== src/Verification/Proof.antt =====
-- What an endpoint has shown when internal/verification takes it for verified, and that no challenge of a
-- finished call stays open.
use peerclaw_server.Prelude.{
  ◌≡◌, refl, inl, inr, String, Option, none, some, true, false, ◌==◌, nat_eq, Result, StoreError,
  ok, err, OnOk, at_ok, arith, Option-cases,
}
use peerclaw_server.Security.Url.{UrlError, validate_url}
use peerclaw_server.Verification.Challenges.{Rows, insert_challenge}
use peerclaw_server.Verification.Challenger.{
  Outside, Answer, VerifyResponse, Error, ChallengeResult, check_signature, check_key,
  check_response, check_body, check_answer, conclude, new_challenge, challenge_endpoint, with_nonce,
  check_endpoint, initiate_challenge,
}

-- The endpoint has answered the challenge, signed by the agent's key.
pub record IsProven (o : Outside) (url public_key nonce : String) : Type 0 where
  pub answer : Answer
  pub body : String
  pub response : VerifyResponse
  pub key : String
  pub signature : String
  pub answered : o.get url nonce ≡ some answer
  pub succeeded : nat_eq answer.status 200 ≡ true
  pub read : answer.body ≡ some body
  pub decoded : o.decode body ≡ some response
  pub same : (response.challenge == nonce) ≡ true
  pub keyed : o.unhex public_key ≡ some key
  pub sized : nat_eq (o.size key) 32 ≡ true
  pub signed : o.unhex response.signature ≡ some signature
  pub fits : o.verify key nonce signature ≡ true

check_answer-IsProven :
    (o : Outside) (url public_key nonce : String)
    → check_answer o nonce public_key (o.get url nonce) ≡ ok tt
    → IsProven o url public_key nonce
unfolding check_answer check_body check_response check_key check_signature
check_answer-IsProven o url public_key nonce e = elim (Option-cases (o.get url nonce)) [
  | inl n ↦ absurd (ground (arith, n))
  | inr (a, f) ↦ elim (Option-cases a.body) [
    | inl n ↦ absurd (ground (arith, f, n))
    | inr (b, g) ↦ elim (Option-cases (o.decode b)) [
      | inl n ↦ absurd (ground (arith, f, g, n))
      | inr (r, h) ↦ elim (Option-cases (o.unhex public_key)) [
        | inl n ↦ absurd (ground (arith, f, g, h, n))
        | inr (k, i) ↦ elim (Option-cases (o.unhex r.signature)) [
          | inl n ↦ absurd (ground (arith, f, g, h, i, n))
          | inr (s, j) ↦ record {
            answer = a;
            body = b;
            response = r;
            key = k;
            signature = s;
            answered = f;
            succeeded = ground (arith, e, f);
            read = g;
            decoded = h;
            same = ground (arith, e, f, g, h);
            keyed = i;
            sized = ground (arith, e, f, g, h, i);
            signed = j;
            fits = ground (arith, e, f, g, h, i, j);
          }
        ]
      ]
    ]
  ]
]

-- A call that ends well proves its challenge, for the URL that ValidateURL accepts.
abbrev Proves : Outside → String → String → Rows × Result Error ChallengeResult → Type 0
Proves o url public_key x = OnOk (λ r. IsProven o url public_key r.challenge) x.1

conclude-Proves :
    (o : Outside) (agent url public_key nonce : String) (rows : Rows) (v : Result Error (Unit {0}))
    → check_answer o nonce public_key (o.get url nonce) ≡ v
    → Proves o url public_key (conclude o agent nonce rows v)
unfolding conclude
conclude-Proves o agent url public_key nonce rows (err x) e = tt
conclude-Proves o agent url public_key nonce rows (ok tt) e =
    check_answer-IsProven o url public_key nonce e

challenge_endpoint-Proves :
    (o : Outside) (agent url public_key nonce : String) (rows : Rows) (r : Result StoreError Rows)
    → Proves o url public_key (challenge_endpoint o agent url public_key nonce rows r)
unfolding challenge_endpoint
challenge_endpoint-Proves o agent url public_key nonce rows (err x) = tt
challenge_endpoint-Proves o agent url public_key nonce rows (ok rows') =
    conclude-Proves o agent url public_key nonce rows'
      (check_answer o nonce public_key (o.get url nonce)) refl

with_nonce-Proves :
    (o : Outside) (agent url public_key : String) (n : Option String) (rows : Rows)
    → Proves o url public_key (with_nonce o agent url public_key n rows)
unfolding with_nonce
with_nonce-Proves o agent url public_key none rows = tt
with_nonce-Proves o agent url public_key (some nonce) rows =
    challenge_endpoint-Proves o agent url public_key nonce rows
      (insert_challenge (o.up 0) (new_challenge o agent nonce) rows)

check_endpoint-Proves :
    (o : Outside) (agent url public_key : String) (v : Result UrlError (Unit {0})) (rows : Rows)
    → Proves o url public_key (check_endpoint o agent url public_key v rows)
unfolding check_endpoint
check_endpoint-Proves o agent url public_key (err x) rows = tt
check_endpoint-Proves o agent url public_key (ok tt) rows =
    with_nonce-Proves o agent url public_key o.nonce rows

-- InitiateChallenge ends without an error only where the endpoint has answered the request with status
-- 200 and a body that repeats the challenge, with a signature of the challenge that fits the
-- agent's public key of 32 bytes.
pub initiate_challenge-IsProven :
    (o : Outside) (agent url public_key : String) (rows : Rows) (r : ChallengeResult)
    → (initiate_challenge o agent url public_key rows).1 ≡ ok r
    → IsProven o url public_key r.challenge
unfolding initiate_challenge
initiate_challenge-IsProven o agent url public_key rows r e =
    at_ok (λ r. IsProven o url public_key r.challenge)
      (initiate_challenge o agent url public_key rows).1 r
      (check_endpoint-Proves o agent url public_key (validate_url o.net false url) rows) e
