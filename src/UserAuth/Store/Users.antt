-- ===== src/UserAuth/Store/Users.antt =====
-- The table users of internal/userauth/sqlite.go. The pattern match of LIKE is the argument `like`, and
-- `order` gives the rows in the order of an ORDER BY clause.
use Prim.Native.Char.{code}
use peerclaw_server.Prelude.{
  ℕ, zero, suc, String, Option, none, some, List, [], ◌∷◌, ◌++◌, Bool, true, false, not, ◌&&◌, ◌||◌,
  ◌==◌, ltb, nat_eq, if◌then◌else◌, Result, ok, err, StoreError, driver, constraint, not_found,
  rfc3339,
}
use peerclaw_server.Prelude.Table.{count, find?, select, update, remove}

pub record User : Type 0 where
  pub id : String
  pub email : String
  pub password_hash : String
  pub display_name : String
  pub description : String
  pub role : String
  pub email_verified : Bool
  pub created_at : ℕ
  pub updated_at : ℕ

abbrev pub Rows : Type 0
Rows = List User

-- WHERE id = ?
abbrev pub has_id : String → User → Bool
has_id i u = u.id == i

-- WHERE email = ?
abbrev pub has_email : String → User → Bool
has_email e u = u.email == e

-- PRIMARY KEY (id), UNIQUE (email).
abbrev pub conflicts : User → User → Bool
conflicts u r = has_id u.id r || has_email u.email r

abbrev pub to_row : User → User
to_row u = record u { created_at = rfc3339 u.created_at; updated_at = rfc3339 u.updated_at }

unfoldable pub create : Bool → User → Rows → Result StoreError Rows
unfolding count
create up u rows =
    if up
    then (if ltb 0 (count (conflicts u) rows) then err constraint else ok (rows ++ to_row u ∷ []))
    else err driver

unfoldable pub or_not_found : Option User → Result StoreError User
or_not_found none = err not_found
or_not_found (some u) = ok u

unfoldable pub get_by_id : Bool → String → Rows → Result StoreError User
unfolding find? or_not_found
get_by_id up i rows = if up then or_not_found (find? (has_id i) rows) else err driver

unfoldable pub get_by_email : Bool → String → Rows → Result StoreError User
unfolding find? or_not_found
get_by_email up e rows = if up then or_not_found (find? (has_email e) rows) else err driver

-- The columns that UPDATE writes, in the row that it finds.
abbrev pub set_user : User → User → User
set_user u r = record (to_row u) { id = r.id; created_at = r.created_at }

-- A row of another user that has the new e-mail address.
abbrev pub taken_by_other : User → User → Bool
taken_by_other u r = not (has_id u.id r) && has_email u.email r

-- Writes nothing where no row has the identifier; fails on an address of another row.
unfoldable pub update_user : Bool → User → Rows → Result StoreError Rows
unfolding count update
update_user up u rows =
    if up
    then (if ltb 0 (count (has_id u.id) rows) && ltb 0 (count (taken_by_other u) rows)
        then err constraint
        else ok (update (has_id u.id) (set_user u) rows))
    else err driver

unfoldable pub delete : Bool → String → Rows → Result StoreError Rows
unfolding count remove
delete up i rows =
    if up
    then (if ltb 0 (count (has_id i) rows) then ok (remove (has_id i) rows) else err not_found)
    else err driver

unfoldable pub count_users : Bool → Rows → Result StoreError ℕ
unfolding count
count_users up rows = if up then ok (count (λ u. true) rows) else err driver

abbrev pub set_verified : ℕ → User → User
set_verified now u = record u { email_verified = true; updated_at = rfc3339 now }

unfoldable pub set_email_verified : Bool → ℕ → String → Rows → Result StoreError Rows
unfolding update
set_email_verified up now i rows =
    if up then ok (update (has_id i) (set_verified now) rows) else err driver

-- `email LIKE ? OR display_name LIKE ?` and `role = ?`, each where its argument is not empty.
unfoldable pub listed : (String → String → Bool) → String → String → User → Bool
listed like search role u =
    (search == "" || like search u.email || like search u.display_name)
    && (role == "" || u.role == role)

-- strings.HasPrefix(s, "-")
unfoldable pub descending : String → Bool
descending String.[] = false
descending (String.◌∷◌ c s) = nat_eq (code c) b'-'

-- strings.TrimPrefix(s, "-")
unfoldable pub trim_dash : String → String
trim_dash String.[] = String.[]
trim_dash (String.◌∷◌ c s) = if nat_eq (code c) b'-' then s else String.◌∷◌ c s

-- The column of ORDER BY and whether it descends. For a text that names no column the clause is
-- `created_at DESC ASC` or `created_at DESC DESC`, which no database parses.
unfoldable pub order_by : String → Option (String × Bool)
unfolding descending trim_dash
order_by sort =
    if column == "email" || column == "display_name" || column == "role" || column == "created_at"
    then some (column, descending sort)
    else if sort == ""
    then some ("created_at", true)
    else none
  where
    column : String
    column = trim_dash sort

unfoldable pub drop : ℕ → Rows → Rows
drop zero rows = rows
drop (suc n) [] = []
drop (suc n) (r ∷ rows) = drop n rows

unfoldable pub take : ℕ → Rows → Rows
take zero rows = []
take (suc n) [] = []
take (suc n) (r ∷ rows) = r ∷ take n rows

-- The rows of one page, none where the statement does not parse.
unfoldable pub page :
    (String × Bool → Rows → Rows) → Option (String × Bool) → ℕ → ℕ → Rows → Result StoreError Rows
unfolding drop take
page order none limit offset rows = err driver
page order (some clause) limit offset rows = ok (take limit (drop offset (order clause rows)))

unfoldable pub with_total : ℕ → Result StoreError Rows → Result StoreError (Rows × ℕ)
with_total n (ok rows) = ok (rows, n)
with_total n (err e) = err e

-- `limit` and `offset` are not negative; a limit of 0 is 50. The first statement counts.
unfoldable pub list_users :
    (String → String → Bool)
    → (String × Bool → Rows → Rows)
    → (ℕ → Bool)
    → String
    → String
    → String
    → ℕ
    → ℕ
    → Rows
    → Result StoreError (Rows × ℕ)
unfolding count select listed order_by page with_total
list_users like order up search role sort limit offset rows =
    if up 0 && up 1
    then with_total (count (listed like search role) rows) (
        page order (order_by sort) (if nat_eq limit 0 then 50 else limit) offset
          (select (listed like search role) rows))
    else err driver
