-- ===== src/UserAuth/Store/Sessions.antt =====
-- The table sessions of internal/userauth/sqlite.go.
use peerclaw_server.Prelude.{
  ℕ, String, Option, none, some, List, [], ◌∷◌, ◌++◌, Bool, ◌==◌, ltb, if◌then◌else◌, Result, ok,
  err, StoreError, driver, constraint, not_found, rfc3339,
}
use peerclaw_server.Prelude.Table.{count, find?, remove}

pub record Session : Type 0 where
  pub id : String
  pub user_id : String
  pub refresh_token : String
  pub ip_address : String
  pub user_agent : String
  pub expires_at : ℕ
  pub created_at : ℕ

abbrev pub Rows : Type 0
Rows = List Session

-- WHERE id = ?
abbrev pub has_id : String → Session → Bool
has_id i s = s.id == i

-- WHERE refresh_token = ?
abbrev pub has_token : String → Session → Bool
has_token h s = s.refresh_token == h

abbrev pub to_row : Session → Session
to_row s = record s { expires_at = rfc3339 s.expires_at; created_at = rfc3339 s.created_at }

-- PRIMARY KEY (id); the column refresh_token is not UNIQUE.
unfoldable pub create : Bool → Session → Rows → Result StoreError Rows
unfolding count
create up s rows =
    if up
    then (if ltb 0 (count (has_id s.id) rows) then err constraint else ok (rows ++ to_row s ∷ []))
    else err driver

unfoldable pub or_not_found : Option Session → Result StoreError Session
or_not_found none = err not_found
or_not_found (some s) = ok s

unfoldable pub get_by_token : Bool → String → Rows → Result StoreError Session
unfolding find? or_not_found
get_by_token up h rows = if up then or_not_found (find? (has_token h) rows) else err driver

unfoldable pub delete : Bool → String → Rows → Result StoreError Rows
unfolding remove
delete up i rows = if up then ok (remove (has_id i) rows) else err driver

-- WHERE expires_at < ?
abbrev pub lapsed : ℕ → Session → Bool
lapsed now s = ltb s.expires_at (rfc3339 now)

unfoldable pub delete_expired : Bool → ℕ → Rows → Result StoreError Rows
unfolding remove
delete_expired up now rows = if up then ok (remove (lapsed now) rows) else err driver
