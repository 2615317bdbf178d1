-- ===== src/UserAuth/Store/Verifications.antt =====
-- The table email_verifications of internal/userauth/sqlite.go. `order` is ORDER BY created_at DESC.
use peerclaw_server.Prelude.{
  ℕ, String, List, [], ◌∷◌, ◌++◌, Bool, true, not, ◌&&◌, ◌==◌, ltb, leb, if◌then◌else◌, Result, ok,
  err, StoreError, driver, constraint, not_found, rfc3339,
}
use peerclaw_server.Prelude.Table.{count, select, update, remove}

pub record EmailVerification : Type 0 where
  pub id : String
  pub email : String
  pub code_hash : String
  pub purpose : String
  pub expires_at : ℕ
  pub used : Bool
  pub created_at : ℕ

abbrev pub Rows : Type 0
Rows = List EmailVerification

-- WHERE id = ?
abbrev pub has_id : String → EmailVerification → Bool
has_id i v = v.id == i

abbrev pub to_row : EmailVerification → EmailVerification
to_row v = record v { expires_at = rfc3339 v.expires_at; created_at = rfc3339 v.created_at }

unfoldable pub create : Bool → EmailVerification → Rows → Result StoreError Rows
unfolding count
create up v rows =
    if up
    then (if ltb 0 (count (has_id v.id) rows) then err constraint else ok (rows ++ to_row v ∷ []))
    else err driver

-- WHERE email = ? AND code_hash = ? AND purpose = ? AND used = 0
abbrev pub unused : String → String → String → EmailVerification → Bool
unused email hash purpose v =
    v.email == email && v.code_hash == hash && v.purpose == purpose && not v.used

-- LIMIT 1
unfoldable pub first_row : Rows → Result StoreError EmailVerification
first_row [] = err not_found
first_row (v ∷ rows) = ok v

unfoldable pub get :
    (Rows → Rows) → Bool → String → String → String → Rows → Result StoreError EmailVerification
unfolding select first_row
get order up email hash purpose rows =
    if up then first_row (order (select (unused email hash purpose) rows)) else err driver

abbrev pub set_used : EmailVerification → EmailVerification
set_used v = record v { used = true }

unfoldable pub mark_used : Bool → String → Rows → Result StoreError Rows
unfolding update
mark_used up i rows = if up then ok (update (has_id i) set_used rows) else err driver

-- WHERE email = ? AND created_at >= ?
abbrev pub recent : String → ℕ → EmailVerification → Bool
recent email since v = v.email == email && leb (rfc3339 since) v.created_at

unfoldable pub count_recent : Bool → String → ℕ → Rows → Result StoreError ℕ
unfolding count
count_recent up email since rows = if up then ok (count (recent email since) rows) else err driver

-- WHERE expires_at < ?
abbrev pub lapsed : ℕ → EmailVerification → Bool
lapsed now v = ltb v.expires_at (rfc3339 now)

unfoldable pub delete_expired : Bool → ℕ → Rows → Result StoreError Rows
unfolding remove
delete_expired up now rows = if up then ok (remove (lapsed now) rows) else err driver
