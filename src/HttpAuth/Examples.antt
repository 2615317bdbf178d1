-- ===== src/HttpAuth/Examples.antt =====
-- Runs of the middlewares of internal/server/auth.go, and their theorems at them.
use peerclaw_server.Prelude.{
  ◌≡◌, ◌≢◌, refl, ◌⊎◌, String, none, some, [], ◌∷◌, true, false, ◌==◌, ◌&&◌, ◌||◌, if◌then◌else◌,
  arith, eq_iff,
}
use peerclaw_server.HttpAuth.Requests.{Request, Context, serves, background, with_agent_id}
use peerclaw_server.HttpAuth.Agents.{AuthConfig, token_of, authenticate}
use peerclaw_server.HttpAuth.Users.{Claims, Jwt, validated}
use peerclaw_server.HttpAuth.Routes.{wrap_owner, wrap_admin}
use peerclaw_server.HttpAuth.Identity.{
  ByKey, BySignature, authenticate-credentials, wrap_owner-IsOwner, wrap_owner_of_other,
  wrap_admin-IsAdmin,
}

-- alice has the API key `secret`; a signature is the key and the body in one.
abbrev cfg : AuthConfig
cfg = record {
  required = true;
  verifier = some (("alice", "secret") ∷ []);
  fits = λ key body sig. key == "mallory" && sig == "signed";
  exists = some (λ a. a == "alice" || a == "mallory");
  split = λ s. if s == "Bearer secret" then some ("Bearer", "secret") else some ("Bearer", "jwt");
  is_bearer = λ s. s == "Bearer";
}

abbrev by_key : Request
by_key = record {
  authorization = "Bearer secret";
  agent_header = "alice";
  signature = "";
  public_key = "";
  body = some "";
  path_id = "alice";
}

-- Signed by mallory, in the name of alice.
abbrev forged : Request
forged = record {
  authorization = "";
  agent_header = "alice";
  signature = "signed";
  public_key = "mallory";
  body = some "{}";
  path_id = "alice";
}

known : authenticate cfg by_key ≡ some "alice"
unfolding authenticate
known = refl

authenticate-credentials_example : ByKey cfg by_key "alice" ⊎ BySignature cfg by_key "alice"
authenticate-credentials_example = authenticate-credentials cfg by_key "alice" known

not_empty : (s : String) → (s == "") ≡ false → s ≢ ""
not_empty s h e = ground (arith, h, (eq_iff s "").1 e)

served : wrap_owner cfg by_key serves background ≡ serves (with_agent_id background "alice")
unfolding wrap_owner
served = refl

wrap_owner-IsOwner_example :
    (authenticate cfg by_key ≡ some "alice")
    × (with_agent_id background "alice" ≡ with_agent_id background "alice")
wrap_owner-IsOwner_example =
    wrap_owner-IsOwner cfg by_key background (with_agent_id background "alice") refl
      (not_empty "alice" refl) served

wrap_owner_of_other_example :
    wrap_owner cfg forged serves background ≡ serves (with_agent_id background "alice")
wrap_owner_of_other_example =
    wrap_owner_of_other cfg forged serves background "{}" refl (not_empty "signed" refl)
      (not_empty "mallory" refl) refl refl (not_empty "alice" refl) refl refl

abbrev jwt : Jwt
jwt token = if token == "jwt" then some (record { user_id = "eve"; role = "admin" }) else none

abbrev by_jwt : Request
by_jwt = record by_key { authorization = "Bearer jwt"; agent_header = "" }

abbrev eve : Context
eve = record { agent_id = none; user_id = some "eve"; user_role = some "admin" }

admitted : wrap_admin cfg (some jwt) by_jwt serves background ≡ serves eve
unfolding wrap_admin
admitted = refl

wrap_admin-IsAdmin_example :
    (j : Jwt) × (c : Claims) × (some jwt ≡ some j)
    × (validated j (token_of cfg (cfg.split "Bearer jwt")) ≡ some c)
    × (c.role ≡ "admin")
    × (some "eve" ≡ some c.user_id)
wrap_admin-IsAdmin_example = wrap_admin-IsAdmin cfg (some jwt) by_jwt background eve admitted
