-- ===== src/Review/Reports.antt =====
-- internal/review/store.go, sqlite.go and service.go: the abuse reports.
use peerclaw_server.Prelude.{
  ℕ, String, Option, none, some, List, [], ◌∷◌, ◌++◌, Bool, ◌&&◌, ◌||◌, ◌==◌, ltb, if◌then◌else◌,
  Result, ok, err, StoreError, driver, constraint, not_found, rfc3339, Env,
}
use peerclaw_server.Prelude.Table.{count, find?, update, remove as delete}

pub record AbuseReport : Type 0 where
  pub id : String
  pub reporter_id : String
  pub target_type : String
  pub target_id : String
  pub reason : String
  pub details : String
  pub status : String
  pub created_at : ℕ

-- WHERE id = ?
abbrev pub is_report : String → AbuseReport → Bool
is_report i r = r.id == i

unfoldable pub create_report :
    Bool → AbuseReport → List AbuseReport → Result StoreError (List AbuseReport)
unfolding count
create_report up r rows =
    if up
    then (if ltb 0 (count (is_report r.id) rows)
        then err constraint
        else ok (rows ++ record r { created_at = rfc3339 r.created_at } ∷ []))
    else err driver

unfoldable pub report_or_missing : Option AbuseReport → Result StoreError AbuseReport
report_or_missing none = err not_found
report_or_missing (some r) = ok r

unfoldable pub get_report : Bool → String → List AbuseReport → Result StoreError AbuseReport
unfolding report_or_missing find?
get_report up i rows = if up then report_or_missing (find? (is_report i) rows) else err driver

abbrev pub with_status : String → AbuseReport → AbuseReport
with_status status r = record r { status = status }

-- The UPDATE of the store.
unfoldable pub write_status :
    Bool → String → String → List AbuseReport → Result StoreError (List AbuseReport)
unfolding count update
write_status up i status rows =
    if up
    then (if ltb 0 (count (is_report i) rows)
        then ok (update (is_report i) (with_status status) rows)
        else err not_found)
    else err driver

unfoldable pub delete_report :
    Bool → String → List AbuseReport → Result StoreError (List AbuseReport)
unfolding count delete
delete_report up i rows =
    if up
    then (if ltb 0 (count (is_report i) rows)
        then ok (delete (is_report i) rows)
        else err not_found)
    else err driver

-- created_at < ? AND status IN ('reviewed','dismissed','actioned')
abbrev pub is_resolved_before : ℕ → AbuseReport → Bool
is_resolved_before older_than r =
    ltb r.created_at (rfc3339 older_than)
    && (r.status == "reviewed" || (r.status == "dismissed" || r.status == "actioned"))

unfoldable pub prune_resolved_reports :
    Bool → ℕ → List AbuseReport → Result StoreError (List AbuseReport × ℕ)
unfolding count delete
prune_resolved_reports up older_than rows =
    if up
    then ok
        (delete (is_resolved_before older_than) rows, count (is_resolved_before older_than) rows)
    else err driver

-- The map validStatuses.
abbrev pub is_report_status : String → Bool
is_report_status s = s == "pending" || (s == "reviewed" || (s == "dismissed" || s == "actioned"))

pub data ReportError : Type 0 where
  invalid_status : String → ReportError
  report_store : StoreError → ReportError

unfoldable pub reported :
    List AbuseReport → Result StoreError (List AbuseReport) → List AbuseReport × Option ReportError
reported rows (ok rows') = (rows', none)
reported rows (err e) = (rows, some (report_store e))

unfoldable pub submit_report :
    Env
    → String
    → String
    → String
    → String
    → String
    → List AbuseReport
    → List AbuseReport × Option ReportError
unfolding reported create_report
submit_report env reporter target_type target reason details rows = reported rows (
    create_report (env.up 0)
      (record {
        id = env.uuid 0;
        reporter_id = reporter;
        target_type = target_type;
        target_id = target;
        reason = reason;
        details = details;
        status = "pending";
        created_at = env.now 0;
      })
      rows)

unfoldable pub update_report_status :
    Bool → String → String → List AbuseReport → List AbuseReport × Option ReportError
unfolding reported write_status
update_report_status up i status rows =
    if is_report_status status
    then reported rows (write_status up i status rows)
    else (rows, some (invalid_status status))
