-- ===== src/Lib.antt =====
-- peerclaw-server: what the Go server under internal/ does when agents and users get to know each
-- other, are let in, find a route and exchange messages.
--
-- The program. Users have accounts, sessions and API keys (internal/userauth); HTTP requests to the
-- protected routes are authenticated by an agent's signature, an API key or a user's token
-- (internal/server/auth.go).
-- Agents register with the server and connect to its signaling hub over WebSockets; a challenge to its
-- endpoint proves that an agent owns it (internal/verification). An
-- agent may signal to another one that lists it as a contact (internal/contacts); it is listed directly
-- or by a contact request that is approved (internal/contactreq), which calls the contacts service. A
-- user may use an agent when a provider approves the user's access request (internal/useracl, with the
-- handlers of internal/server/useracl_handler.go). A user binds an agent's key to an account with a
-- one-time code (internal/claimtoken), which the agent presents to handleClaimAgent of
-- internal/server/claim_handler.go. The hub (internal/signaling) asks the contacts service before it
-- forwards an offer, an answer or an ICE candidate. The router (internal/router) keeps the routes to the
-- agents and chooses the best one.
--
-- The files.
--   Prelude       helpers: tests on numbers, results, Go maps (Maps), and the SQL statements of the
--                 stores as functions on lists of rows (Table): find?, select, count, remove, update.
--   Contacts      internal/contacts/service.go, sqlite.go, store.go, postgres.go.
--   ContactReq    internal/contactreq/service.go, sqlite.go, store.go.
--   UserAcl       internal/useracl/service.go, sqlite.go, store.go; Handlers is the provider's part of
--                 internal/server/useracl_handler.go with verifyAgentOwnership of contacts_handler.go.
--   ClaimToken    internal/claimtoken/service.go, sqlite.go, store.go, with handleClaimAgent of
--                 internal/server/claim_handler.go.
--   UserAuth      internal/userauth/service.go, sqlite.go, store.go, and what jwt.go is used for.
--   HttpAuth      internal/server/auth.go, the wrappers of http.go and admin_handler.go that choose the
--                 middleware of a route, and internal/identity/trust.go.
--   Verification  internal/verification/challenger.go, sqlite.go, store.go, with handleVerifyEndpoint of
--                 internal/server/public_handlers.go.
--   Signaling     internal/signaling/ws.go, local_broker.go, federation_broker.go.
--   Router        internal/router/table.go, engine.go.
--   Reputation    internal/reputation/engine.go, sqlite.go, store.go.
--   RateLimit     internal/server/ratelimit.go: the limiter of each client address.
--   Security      internal/security/urlvalidator.go: which URLs the server requests.
--   VersionCheck  internal/versioncheck/service.go.
--   Review        internal/review/service.go, sqlite.go, store.go: the reviews, with the events
--                 of Reputation that they make, and the abuse reports.
-- In each, the definitions are in Store and its children, Service, Postgres, Handler, Handlers,
-- Code, Codes, Conns, Auth, Reports, Summary, Limiter, Forward, Table, Engine, Floats, Limiters,
-- Url, Failures, Outside, Tokens of UserAuth, Keys, Accounts, Verify, Requests, Agents, Users,
-- Routes, Semver, Challenges and Challenger; the other modules are proofs, and Examples and
-- HandlerExamples hold runs at concrete inputs. A function keeps the name of its Go function, in
-- small letters: SubmitRequest is submit_request.
--
-- How the code is read.
--   * A service call takes the table that it finds and returns the table that it leaves and its result.
--     A run is a list of calls, each with its own environment: the answers of the driver, the new UUIDs
--     and the readings of the clock. Calls of one service are atomic with respect to each other; the
--     steps of the hub that take its lock separately are events that interleave in any order.
--   * A time is its nanoseconds since the epoch. What a store writes is cut to whole seconds, as
--     time.RFC3339 does, and two such texts compare as their times do.
--   * A statement that the driver does not run returns an error and changes nothing. A violated
--     PRIMARY KEY or UNIQUE constraint is an error of its own. ORDER BY is a function `order`; a theorem
--     says what it relies on.
--   * An int64 where overflow matters is its residue modulo 2 ^ 64. The tokens of the hub's limiter
--     and the scores of Reputation are interfaces of float64 with named laws.
--   * No definition runs on fuel: every loop of the modelled code walks a list.
--   * Code that is not in this repository is a parameter: the message types and cards of
--     peerclaw-core, the signature check, sort.Slice, time.Parse, JSON, the packages net and
--     net/url, the token bucket of golang.org/x/time/rate, bcrypt, SHA-256, the signing of
--     JWTs, Ed25519, hex, strconv.Atoi, the sending of e-mail, the requests to an endpoint
--     and the random bytes. A theorem names what it relies on, and Examples gives a concrete
--     instance.
--
-- What is not modelled: the Postgres stores except that of the contacts, the scanning of rows and
-- the schema, logging, metrics and audit, the bridges to A2A, ACP and MCP, the registry, the
-- listing of reports, categories, invocations, notifications, the handlers of server/ not named
-- above, federation over HTTP and DNS, the configuration and the web frontend.
pub mod Prelude
pub mod Contacts
pub mod ContactReq
pub mod UserAcl
pub mod ClaimToken
pub mod Signaling
pub mod Router
pub mod RateLimit
pub mod Security
pub mod Reputation
pub mod UserAuth
pub mod HttpAuth
pub mod VersionCheck
pub mod Verification
pub mod Review
