-- ===== src/ClaimToken/Store.antt =====
-- internal/claimtoken/store.go and sqlite.go: the table claim_tokens. The order that
-- `ORDER BY created_at DESC` gives is the argument `order`.
use peerclaw_server.Prelude.{
  ℕ, String, Option, none, some, List, [], ◌∷◌, ◌++◌, Bool, ◌&&◌, ◌||◌, ◌==◌, ltb, if◌then◌else◌,
  Result, ok, err, StoreError, driver, constraint, not_found, rfc3339,
}
use peerclaw_server.Prelude.Table.{count, find?, select, update, remove}

pub record Token : Type 0 where
  pub id : String
  pub code : String
  pub user_id : String
  pub status : String
  pub agent_id : String
  pub agent_name : String
  pub capabilities : String
  pub protocols : String
  pub created_at : ℕ
  pub expires_at : ℕ
  pub claimed_at : Option ℕ

abbrev pub Rows : Type 0
Rows = List Token

abbrev pub has_id : String → Token → Bool
has_id i t = t.id == i

-- WHERE code = ?
abbrev pub has_code : String → Token → Bool
has_code c t = t.code == c

-- WHERE user_id = ?
abbrev pub is_of : String → Token → Bool
is_of user t = t.user_id == user

-- PRIMARY KEY (id), UNIQUE (code).
abbrev pub conflicts : Token → Token → Bool
conflicts t r = has_id t.id r || has_code t.code r

-- The row that INSERT writes: times in whole seconds, never claimed.
abbrev pub to_row : Token → Token
to_row t = record t {
  created_at = rfc3339 t.created_at;
  expires_at = rfc3339 t.expires_at;
  claimed_at = none;
}

unfoldable pub create : Bool → Token → Rows → Result StoreError Rows
unfolding count
create up t rows =
    if up
    then (if ltb 0 (count (conflicts t) rows) then err constraint else ok (rows ++ to_row t ∷ []))
    else err driver

unfoldable pub or_not_found : Option Token → Result StoreError Token
or_not_found none = err not_found
or_not_found (some t) = ok t

unfoldable pub get_by_code : Bool → String → Rows → Result StoreError Token
unfolding find? or_not_found
get_by_code up c rows = if up then or_not_found (find? (has_code c) rows) else err driver

-- WHERE code = ? AND status = 'pending'
abbrev pub claimable : String → Token → Bool
claimable c t = has_code c t && t.status == "pending"

abbrev pub set_claimed : String → ℕ → Token → Token
set_claimed agent now t = record t {
  status = "claimed";
  agent_id = agent;
  claimed_at = some (rfc3339 now);
}

unfoldable pub mark_claimed : Bool → String → String → ℕ → Rows → Result StoreError Rows
unfolding count update
mark_claimed up c agent now rows =
    if up
    then (if ltb 0 (count (claimable c) rows)
        then ok (update (claimable c) (set_claimed agent now) rows)
        else err not_found)
    else err driver

unfoldable pub list_by_user : (Rows → Rows) → Bool → String → Rows → Result StoreError Rows
unfolding select
list_by_user order up user rows = if up then ok (order (select (is_of user) rows)) else err driver

-- WHERE status = 'pending' AND expires_at < ?
abbrev pub lapsed : ℕ → Token → Bool
lapsed now t = t.status == "pending" && ltb t.expires_at (rfc3339 now)

unfoldable pub delete_expired : Bool → ℕ → Rows → Result StoreError (Rows × ℕ)
unfolding count remove
delete_expired up now rows =
    if up then ok (remove (lapsed now) rows, count (lapsed now) rows) else err driver
