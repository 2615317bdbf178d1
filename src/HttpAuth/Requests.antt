-- ===== src/HttpAuth/Requests.antt =====
-- What the middlewares of internal/server/auth.go read and write: the headers of a request, the keys of
-- internal/identity/trust.go in its context, and the answer.
use peerclaw_server.Prelude.{ℕ, String, Option, none, some}

pub record Request : Type 0 where
  -- r.Header.Get of the four headers, "" where one is missing
  pub authorization : String
  pub agent_header : String
  pub signature : String
  pub public_key : String
  -- io.ReadAll(r.Body), none on its error
  pub body : Option String
  -- r.PathValue("id")
  pub path_id : String

-- The values of a context.
pub record Context : Type 0 where
  pub agent_id : Option String
  pub user_id : Option String
  pub user_role : Option String

abbrev pub background : Context
background = record { agent_id = none; user_id = none; user_role = none }

unfoldable pub with_agent_id : Context → String → Context
with_agent_id ctx a = record ctx { agent_id = some a }

unfoldable pub with_user_id : Context → String → Context
with_user_id ctx u = record ctx { user_id = some u }

unfoldable pub with_user_role : Context → String → Context
with_user_role ctx r = record ctx { user_role = some r }

-- Whether the handler behind the middlewares runs, and in which context, or which status is answered.
pub data Outcome : Type 0 where
  answers : ℕ → Outcome
  serves : Context → Outcome

-- The next middleware.
abbrev pub Handler : Type 0
Handler = Context → Outcome
