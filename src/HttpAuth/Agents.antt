-- ===== src/HttpAuth/Agents.antt =====
-- The Verifier of internal/identity/trust.go, and authenticate, AuthMiddleware and OwnerOnlyMiddleware of
-- internal/server/auth.go. SplitN and EqualFold of strings, the registry and the signature check are
-- parameters.
use peerclaw_server.Prelude.{
  String, Option, none, some, Bool, true, false, not, ◌&&◌, ◌==◌, if◌then◌else◌,
}
use peerclaw_server.Prelude.Maps.{Map, get, put, del}
use peerclaw_server.HttpAuth.Requests.{Request, answers, Handler, with_agent_id}

-- The API keys of the agents.
abbrev pub Verifier : Type 0
Verifier = Map String

unfoldable pub register_key : String → String → Verifier → Verifier
unfolding put
register_key agent key v = put agent key v

unfoldable pub remove_key : String → Verifier → Verifier
unfolding del
remove_key agent v = del agent v

abbrev pub key_fits : Option String → String → Bool
key_fits none key = false
key_fits (some expected) key = expected == key

-- Whether VerifyAPIKey returns no error.
unfoldable pub verify_api_key : String → String → Verifier → Bool
unfolding get
verify_api_key agent key v = key_fits (get agent v) key

pub record AuthConfig : Type 0 where
  pub required : Bool
  -- none for a nil Verifier
  pub verifier : Option Verifier
  -- whether VerifySignature of a public key, a body and a signature returns no error
  pub fits : String → String → String → Bool
  -- AgentExists, none for nil; http.go sets it to a lookup in the registry
  pub exists : Option (String → Bool)
  -- strings.SplitN(s, " ", 2) where it gives two parts
  pub split : String → Option (String × String)
  -- strings.EqualFold(s, "bearer")
  pub is_bearer : String → Bool

abbrev pub token_of : AuthConfig → Option (String × String) → Option String
token_of cfg none = none
token_of cfg (some (scheme, token)) = if cfg.is_bearer scheme then some token else none

-- none where ExtractBearerToken returns an error.
unfoldable pub extract_bearer_token : AuthConfig → String → Option String
extract_bearer_token cfg header = if header == "" then none else token_of cfg (cfg.split header)

-- `cfg.Verifier != nil` and a failed check refuse; a nil Verifier checks nothing.
abbrev pub passes_key : Option Verifier → String → String → Bool
passes_key none agent token = true
passes_key (some v) agent token = verify_api_key agent token v

unfoldable pub by_token : AuthConfig → Request → Option String → Option String
unfolding verify_api_key
by_token cfg r none = none
by_token cfg r (some token) =
    if r.agent_header == ""
    then none
    else if passes_key cfg.verifier r.agent_header token
    then some r.agent_header
    else none

abbrev pub passes_signature : AuthConfig → Option Verifier → Request → String → Bool
passes_signature cfg none r body = true
passes_signature cfg (some v) r body = cfg.fits r.public_key body r.signature

-- The identifier that a signed request goes by.
unfoldable pub claimed_agent : Request → String
claimed_agent r = if r.agent_header == "" then r.public_key else r.agent_header

-- `cfg.AgentExists != nil` and a failed lookup refuse; a nil lookup checks nothing.
abbrev pub is_registered : Option (String → Bool) → String → Bool
is_registered none agent = true
is_registered (some exists) agent = exists agent

unfoldable pub by_signature : AuthConfig → Request → Option String → Option String
unfolding claimed_agent
by_signature cfg r none = none
by_signature cfg r (some body) =
    if not (passes_signature cfg cfg.verifier r body)
    then none
    else if not (is_registered cfg.exists (claimed_agent r))
    then none
    else some (claimed_agent r)

unfoldable pub authenticate : AuthConfig → Request → Option String
unfolding extract_bearer_token by_token by_signature
authenticate cfg r =
    if not (r.authorization == "")
    then by_token cfg r (extract_bearer_token cfg r.authorization)
    else if not (r.signature == "") && not (r.public_key == "")
    then by_signature cfg r r.body
    else none

unfoldable pub admit_agent : AuthConfig → Option String → Handler → Handler
unfolding with_agent_id
admit_agent cfg none next ctx = if cfg.required then answers 401 else next ctx
admit_agent cfg (some agent) next ctx = next (with_agent_id ctx agent)

unfoldable pub auth_middleware : AuthConfig → Request → Handler → Handler
unfolding admit_agent authenticate
auth_middleware cfg r next ctx = admit_agent cfg (authenticate cfg r) next ctx

unfoldable pub check_owner : String → Option String → Handler → Handler
check_owner path none next ctx = next ctx
check_owner path (some agent) next ctx = if agent == path then next ctx else answers 403

unfoldable pub owner_only_middleware : Request → Handler → Handler
unfolding check_owner
owner_only_middleware r next ctx =
    if r.path_id == "" then next ctx else check_owner r.path_id ctx.agent_id next ctx
