-- ===== src/ClaimToken/Service.antt =====
-- internal/claimtoken/service.go but for generateCode. A call returns the table that it leaves and
-- its result. The random bytes are the argument `bytes`: none where rand.Read fails.
use peerclaw_server.Prelude.{
  ℕ, ◌+◌, ◌*◌, String, Option, none, some, Bool, ◌&&◌, not, ◌==◌, ltb, leb, if◌then◌else◌, Result,
  ok, err, StoreError, Env, second,
}
use peerclaw_server.Prelude.Table.{count}
use peerclaw_server.ClaimToken.Store
use peerclaw_server.ClaimToken.Store.{Token, Rows}
use peerclaw_server.ClaimToken.Code.{generate_code}

pub record GenerateParams : Type 0 where
  pub agent_name : String
  pub capabilities : String
  pub protocols : String

pub data Error : Type 0 where
  too_many_pending no_randomness already_claimed expired : Error
  store_failed : StoreError → Error

-- 30 minutes.
abbrev pub code_ttl : ℕ
code_ttl = 1_800 * second

abbrev pub max_pending_tokens : ℕ
max_pending_tokens = 3

-- The condition of the loop that counts the pending tokens.
abbrev pub is_live : ℕ → Token → Bool
is_live now t = t.status == "pending" && ltb now t.expires_at

unfoldable pub new_token : Env → String → String → GenerateParams → Token
new_token env code user params = record {
  id = env.uuid 0;
  code = code;
  user_id = user;
  status = "pending";
  agent_id = "";
  agent_name = params.agent_name;
  capabilities = params.capabilities;
  protocols = params.protocols;
  created_at = env.now 0;
  expires_at = env.now 0 + code_ttl;
  claimed_at = none;
}

unfoldable pub created : Token → Rows → Result StoreError Rows → Rows × Result Error Token
created t rows (ok rows') = (rows', ok t)
created t rows (err e) = (rows, err (store_failed e))

unfoldable pub insert :
    Env → String → GenerateParams → Option String → Rows → Rows × Result Error Token
unfolding created new_token Store.create
insert env user params none rows = (rows, err no_randomness)
insert env user params (some code) rows =
    created (new_token env code user params) rows
      (Store.create (env.up 1) (new_token env code user params) rows)

unfoldable pub check_limit :
    Env
    → Option (ℕ → ℕ)
    → String
    → GenerateParams
    → Result StoreError Rows
    → Rows
    → Rows × Result Error Token
unfolding insert count
check_limit env bytes user params (err e) rows = (rows, err (store_failed e))
check_limit env bytes user params (ok tokens) rows =
    if leb max_pending_tokens (count (is_live (env.now 0)) tokens)
    then (rows, err too_many_pending)
    else insert env user params (generate_code bytes) rows

unfoldable pub generate :
    (Rows → Rows)
    → Env
    → Option (ℕ → ℕ)
    → String
    → GenerateParams
    → Rows
    → Rows × Result Error Token
unfolding check_limit Store.list_by_user
generate order env bytes user params rows =
    check_limit env bytes user params (Store.list_by_user order (env.up 0) user rows) rows

unfoldable pub check_token : ℕ → Result StoreError Token → Result Error Token
check_token now (err e) = err (store_failed e)
check_token now (ok t) =
    if not (t.status == "pending")
    then err already_claimed
    else if ltb t.expires_at now
    then err expired
    else ok t

unfoldable pub validate : Env → String → Rows → Result Error Token
unfolding check_token Store.get_by_code
validate env code rows = check_token (env.now 0) (Store.get_by_code (env.up 0) code rows)

unfoldable pub claimed : Rows → Result StoreError Rows → Rows × Result Error (Unit {0})
claimed rows (ok rows') = (rows', ok tt)
claimed rows (err e) = (rows, err (store_failed e))

unfoldable pub claim : Env → String → String → Rows → Rows × Result Error (Unit {0})
unfolding claimed Store.mark_claimed
claim env code agent rows = claimed rows (Store.mark_claimed (env.up 0) code agent (env.now 0) rows)

unfoldable pub list_by_user : (Rows → Rows) → Bool → String → Rows → Result StoreError Rows
unfolding Store.list_by_user
list_by_user order up user rows = Store.list_by_user order up user rows

unfoldable pub cleaned : Rows → Result StoreError (Rows × ℕ) → Rows × Result StoreError ℕ
cleaned rows (ok (rows', n)) = (rows', ok n)
cleaned rows (err e) = (rows, err e)

unfoldable pub cleanup_expired : Env → Rows → Rows × Result StoreError ℕ
unfolding cleaned Store.delete_expired
cleanup_expired env rows = cleaned rows (Store.delete_expired (env.up 0) (env.now 0) rows)
