-- ===== src/Signaling/Auth.antt =====
-- authenticateConn of internal/signaling/ws.go. Reading the frame and its JSON are the argument
-- `frame`, and VerifySignature of internal/identity, with the format of the payload, the argument
-- `verified`. An int64 is its residue modulo 2 ^ 64, as two's complement has it.
use peerclaw_server.Prelude.{
  ℕ, ◌+◌, ◌-◌, ◌%◌, String, Option, none, some, Bool, ◌&&◌, ◌||◌, not, ◌==◌, ltb, leb,
  if◌then◌else◌, Result, ok, err,
}

-- 2 ^ 63 and 2 ^ 64.
abbrev pub half : ℕ
half = 9_223_372_036_854_775_808

abbrev pub modulus : ℕ
modulus = 18_446_744_073_709_551_616

unfoldable pub int64_sub : ℕ → ℕ → ℕ
int64_sub a b = (a + modulus - b) % modulus

abbrev pub is_negative : ℕ → Bool
is_negative n = leb half n

-- The smallest int64 is its own negation.
unfoldable pub abs64 : ℕ → ℕ
unfolding int64_sub
abs64 n = if is_negative n then int64_sub 0 n else n

-- `n > 5` on int64.
abbrev pub exceeds_five : ℕ → Bool
exceeds_five n = not (is_negative n) && ltb 5 n

unfoldable pub is_stale : ℕ → ℕ → Bool
unfolding abs64 int64_sub
is_stale now timestamp = exceeds_five (abs64 (int64_sub now timestamp))

pub record AuthFrame : Type 0 where
  pub agent_id : String
  pub timestamp : ℕ
  pub signature : String
  pub public_key : String

pub data AuthError : Type 0 where
  no_frame incomplete mismatch stale bad_signature : AuthError

-- VerifySignature of the public key, the agent and timestamp that make the payload, and the signature.
abbrev pub Verifier : Type 0
Verifier = String → String → ℕ → String → Bool

unfoldable pub check_frame : Verifier → ℕ → String → AuthFrame → Result AuthError String
unfolding is_stale
check_frame verified now expected f =
    if f.agent_id == "" || (f.public_key == "" || f.signature == "")
    then err incomplete
    else if not (f.agent_id == expected)
    then err mismatch
    else if is_stale now f.timestamp
    then err stale
    else if verified f.public_key f.agent_id f.timestamp f.signature
    then ok f.agent_id
    else err bad_signature

unfoldable pub authenticate_conn :
    Verifier → ℕ → String → Option AuthFrame → Result AuthError String
unfolding check_frame
authenticate_conn verified now expected none = err no_frame
authenticate_conn verified now expected (some f) = check_frame verified now expected f
