-- ===== src/Review/Store.antt =====
-- internal/review/store.go and sqlite.go: the table reviews. The order of the listing, with its limit and
-- offset, is the argument `page`. A negative rating is 0 here, which the same tests refuse.
use peerclaw_server.Prelude.{
  ℕ, String, Option, none, some, List, [], ◌∷◌, ◌++◌, Bool, ◌&&◌, not, ◌==◌, ltb, leb,
  if◌then◌else◌, Result, ok, err, StoreError, driver, constraint, not_found, rfc3339,
}
use peerclaw_server.Prelude.Table.{count, find?, select, update, remove as delete}

pub record Review : Type 0 where
  pub id : String
  pub agent_id : String
  pub user_id : String
  pub rating : ℕ
  pub comment : String
  pub created_at : ℕ
  pub updated_at : ℕ

-- WHERE agent_id = ? AND user_id = ?
abbrev pub is_by : String → String → Review → Bool
is_by agent user r = r.agent_id == agent && r.user_id == user

-- WHERE agent_id = ?
abbrev pub is_about : String → Review → Bool
is_about agent r = r.agent_id == agent

-- CHECK(rating >= 1 AND rating <= 5)
abbrev pub is_rating : ℕ → Bool
is_rating n = leb 1 n && leb n 5

abbrev pub to_row : Review → Review
to_row r = record r { created_at = rfc3339 r.created_at; updated_at = rfc3339 r.updated_at }

-- ON CONFLICT(agent_id, user_id) DO UPDATE SET
abbrev pub revise : Review → Review → Review
revise new r = record r {
  id = new.id;
  rating = new.rating;
  comment = new.comment;
  updated_at = new.updated_at;
}

-- Another row with the identifier that the statement writes: PRIMARY KEY (id).
abbrev pub id_taken : Review → Review → Bool
id_taken new r = r.id == new.id && not (is_by new.agent_id new.user_id r)

unfoldable pub write_review : Review → List Review → List Review
unfolding count update
write_review r rows =
    if ltb 0 (count (is_by r.agent_id r.user_id) rows)
    then update (is_by r.agent_id r.user_id) (revise (to_row r)) rows
    else rows ++ to_row r ∷ []

unfoldable pub upsert_review : Bool → Review → List Review → Result StoreError (List Review)
unfolding write_review count
upsert_review up r rows =
    if up
    then (if is_rating r.rating
        then (if ltb 0 (count (id_taken r) rows) then err constraint else ok (write_review r rows))
        else err constraint)
    else err driver

unfoldable pub or_missing : Option Review → Result StoreError Review
or_missing none = err not_found
or_missing (some r) = ok r

unfoldable pub get_review : Bool → String → String → List Review → Result StoreError Review
unfolding or_missing find?
get_review up agent user rows =
    if up then or_missing (find? (is_by agent user) rows) else err driver

unfoldable pub delete_review :
    Bool → String → String → List Review → Result StoreError (List Review)
unfolding count delete
delete_review up agent user rows =
    if up
    then (if ltb 0 (count (is_by agent user) rows)
        then ok (delete (is_by agent user) rows)
        else err not_found)
    else err driver

unfoldable pub list_reviews :
    (ℕ → ℕ → List Review → List Review)
    → Bool
    → Bool
    → String
    → ℕ
    → ℕ
    → List Review
    → Result StoreError (List Review × ℕ)
unfolding count select
list_reviews page counts up agent limit offset rows =
    if counts && up
    then ok (page limit offset (select (is_about agent) rows), count (is_about agent) rows)
    else err driver
