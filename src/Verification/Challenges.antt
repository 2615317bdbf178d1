-- ===== src/Verification/Challenges.antt =====
-- The table verification_challenges of internal/verification/sqlite.go.
use peerclaw_server.Prelude.{
  ℕ, String, Option, none, some, List, [], ◌∷◌, ◌++◌, Bool, ◌&&◌, ◌==◌, ltb, if◌then◌else◌, Result,
  ok, err, StoreError, driver, constraint, not_found, rfc3339,
}
use peerclaw_server.Prelude.Table.{count, find?, update, remove}

pub record Challenge : Type 0 where
  pub agent_id : String
  pub challenge : String
  pub created_at : ℕ
  pub expires_at : ℕ
  pub status : String

abbrev pub Rows : Type 0
Rows = List Challenge

-- WHERE agent_id = ? AND challenge = ?, which is the PRIMARY KEY.
abbrev pub is_key : String → String → Challenge → Bool
is_key agent nonce c = c.agent_id == agent && c.challenge == nonce

abbrev pub to_row : Challenge → Challenge
to_row c = record c { created_at = rfc3339 c.created_at; expires_at = rfc3339 c.expires_at }

unfoldable pub insert_challenge : Bool → Challenge → Rows → Result StoreError Rows
unfolding count
insert_challenge up c rows =
    if up
    then (if ltb 0 (count (is_key c.agent_id c.challenge) rows)
        then err constraint
        else ok (rows ++ to_row c ∷ []))
    else err driver

-- AND status = 'pending' AND expires_at > ?
abbrev pub is_open : String → String → ℕ → Challenge → Bool
is_open agent nonce now c =
    is_key agent nonce c && c.status == "pending" && ltb (rfc3339 now) c.expires_at

unfoldable pub or_none_pending : Option Challenge → Result StoreError Challenge
or_none_pending none = err not_found
or_none_pending (some c) = ok c

unfoldable pub get_pending_challenge :
    Bool → String → String → ℕ → Rows → Result StoreError Challenge
unfolding find? or_none_pending
get_pending_challenge up agent nonce now rows =
    if up then or_none_pending (find? (is_open agent nonce now) rows) else err driver

abbrev pub set_status : String → Challenge → Challenge
set_status status c = record c { status = status }

unfoldable pub update_challenge_status :
    Bool → String → String → String → Rows → Result StoreError Rows
unfolding count update
update_challenge_status up agent nonce status rows =
    if up
    then (if ltb 0 (count (is_key agent nonce) rows)
        then ok (update (is_key agent nonce) (set_status status) rows)
        else err not_found)
    else err driver

unfoldable pub clean_expired : Bool → ℕ → Rows → Result StoreError Rows
unfolding remove
clean_expired up now rows =
    if up then ok (remove (λ c. ltb c.expires_at (rfc3339 now)) rows) else err driver
