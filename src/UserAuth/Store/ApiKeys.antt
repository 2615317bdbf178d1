-- ===== src/UserAuth/Store/ApiKeys.antt =====
-- The table user_api_keys of internal/userauth/sqlite.go. `order` is ORDER BY created_at DESC.
use peerclaw_server.Prelude.{
  ℕ, String, Option, none, some, List, [], ◌∷◌, ◌++◌, Bool, true, ◌&&◌, ◌||◌, ◌==◌, map, ltb,
  if◌then◌else◌, Result, ok, err, StoreError, driver, constraint, not_found, rfc3339, rfc3339_null,
}
use peerclaw_server.Prelude.Table.{count, find?, select, update}

pub record UserApiKey : Type 0 where
  pub id : String
  pub user_id : String
  pub name : String
  pub key_hash : String
  pub prefix : String
  pub created_at : ℕ
  pub last_used : Option ℕ
  pub expires_at : Option ℕ
  pub revoked : Bool

abbrev pub Rows : Type 0
Rows = List UserApiKey

-- WHERE id = ?
abbrev pub has_id : String → UserApiKey → Bool
has_id i k = k.id == i

-- WHERE key_hash = ?
abbrev pub has_hash : String → UserApiKey → Bool
has_hash h k = k.key_hash == h

-- PRIMARY KEY (id), UNIQUE (key_hash).
abbrev pub conflicts : UserApiKey → UserApiKey → Bool
conflicts k r = has_id k.id r || has_hash k.key_hash r

abbrev pub to_row : UserApiKey → UserApiKey
to_row k = record k {
  created_at = rfc3339 k.created_at;
  last_used = rfc3339_null k.last_used;
  expires_at = rfc3339_null k.expires_at;
}

unfoldable pub create : Bool → UserApiKey → Rows → Result StoreError Rows
unfolding count
create up k rows =
    if up
    then (if ltb 0 (count (conflicts k) rows) then err constraint else ok (rows ++ to_row k ∷ []))
    else err driver

-- The hash is not selected.
abbrev pub without_hash : UserApiKey → UserApiKey
without_hash k = record k { key_hash = "" }

unfoldable pub list : (Rows → Rows) → Bool → String → Rows → Result StoreError Rows
unfolding select
list order up user rows =
    if up then ok (map without_hash (order (select (λ k. k.user_id == user) rows))) else err driver

unfoldable pub or_not_found : Option UserApiKey → Result StoreError UserApiKey
or_not_found none = err not_found
or_not_found (some k) = ok k

unfoldable pub get_by_hash : Bool → String → Rows → Result StoreError UserApiKey
unfolding find? or_not_found
get_by_hash up h rows = if up then or_not_found (find? (has_hash h) rows) else err driver

-- WHERE id = ? AND user_id = ?
abbrev pub owned : String → String → UserApiKey → Bool
owned i user k = has_id i k && k.user_id == user

abbrev pub set_revoked : UserApiKey → UserApiKey
set_revoked k = record k { revoked = true }

unfoldable pub revoke : Bool → String → String → Rows → Result StoreError Rows
unfolding count update
revoke up i user rows =
    if up
    then (if ltb 0 (count (owned i user) rows)
        then ok (update (owned i user) set_revoked rows)
        else err not_found)
    else err driver

abbrev pub set_last_used : ℕ → UserApiKey → UserApiKey
set_last_used now k = record k { last_used = some (rfc3339 now) }

unfoldable pub update_last_used : Bool → ℕ → String → Rows → Result StoreError Rows
unfolding update
update_last_used up now i rows =
    if up then ok (update (has_id i) (set_last_used now) rows) else err driver
