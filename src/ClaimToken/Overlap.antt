-- ===== src/ClaimToken/Overlap.antt =====
-- Two requests of handleClaimAgent that overlap.
use peerclaw_server.Prelude.{ℕ, ◌≡◌, refl, String, some, [], ◌∷◌, ◌++◌, true, false, ◌||◌, ◌==◌, ok}
use peerclaw_server.ClaimToken.Store.{Token}
use peerclaw_server.ClaimToken.Service.{validate}
use peerclaw_server.ClaimToken.Handler.{
  ClaimAgentRequest, Outside, State, Agent, agent_name, register_request, enroll, admit_token,
  admit, finish, conclude, registered,
}

-- A request that passes every check on a state, with the token that it finds and the identifier that
-- the registry gives.
pub record IsAcceptable (o : Outside) (req : ClaimAgentRequest) (st : State) (t : Token)
    (i : String) : Type 0 where
  pub complete : (req.token == "" || req.public_key == "" || req.signature == "") ≡ false
  pub valid : validate o.validate_env req.token st.tokens ≡ ok t
  pub signed : o.fits req.public_key req.token req.signature ≡ true
  pub named : (agent_name req t == "") ≡ false
  pub registers : o.register (register_request o req t) ≡ some i

abbrev pub agent_of : Outside → ClaimAgentRequest → Token → String → Agent
agent_of o req t i = record { id = i; request = register_request o req t }

admit-registers :
    (o : Outside) (req : ClaimAgentRequest) (st : State) (t : Token) (i : String)
    → IsAcceptable o req st t i
    → admit o (some req) st ≡ (
      record st { agents = st.agents ++ agent_of o req t i ∷ [] },
      registered (agent_of o req t i),
    )
unfolding admit admit_token enroll
admit-registers o req st t i a = rw (a.complete, a.valid, a.signed, a.named, a.registers) refl

-- Both requests register their agents before either marks the token.
unfoldable pub overlapped :
    Outside → ClaimAgentRequest → Outside → ClaimAgentRequest → State → State × ℕ × ℕ
unfolding admit conclude
overlapped o req o' req' st =
    let x = admit o (some req) st in
    let y = admit o' (some req') x.0 in
    let z = conclude o req.token (y.0, x.1) in
    let w = conclude o' req'.token (z.0, y.1) in (w.0, z.1, w.1)

-- Two requests that pass the checks of handleClaimAgent on one state, also with the same token, and that
-- both register their agents before either marks the token, are both answered by 201, and both agents
-- are registered for the owner of the token.
pub overlapped-registers :
    (o o' : Outside) (req req' : ClaimAgentRequest) (st : State) (t t' : Token) (i i' : String)
    → IsAcceptable o req st t i
    → IsAcceptable o' req' st t' i'
    → ((overlapped o req o' req' st).0.agents
        ≡ (st.agents ++ agent_of o req t i ∷ []) ++ agent_of o' req' t' i' ∷ [])
      × ((overlapped o req o' req' st).1 ≡ 201)
      × ((overlapped o req o' req' st).2 ≡ 201)
unfolding overlapped conclude finish
overlapped-registers o o' req req' st t t' i i' a a' =
    rw
      (
        admit-registers o req st t i a,
        admit-registers o' req' (record st { agents = st.agents ++ agent_of o req t i ∷ [] }) t' i'
            (record {
              complete = a'.complete;
              valid = a'.valid;
              signed = a'.signed;
              named = a'.named;
              registers = a'.registers;
            }),
      )
      (refl, refl, refl)
