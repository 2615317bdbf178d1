-- ===== src/Review/Pending.antt =====
-- What becomes of an abuse report that nobody has looked at.
use peerclaw_server.Prelude.{
  ℕ, ◌≡◌, ◌≢◌, refl, inl, inr, String, Option, some, List, [], ◌∷◌, ◌++◌, Bool, true, false, ltb,
  ok, err, Env, arith, eq_iff, Option-cases, All, OnOk, Result, StoreError, if_cases,
}
use peerclaw_server.Prelude.Table.{count, find?, find?-holds, find?-remove_miss, update}
use peerclaw_server.Review.Reports.{
  AbuseReport, ReportError, is_report, create_report, write_status, with_status, delete_report,
  is_resolved_before, prune_resolved_reports, is_report_status, reported, submit_report,
  update_report_status, get_report, report_or_missing,
}

pub data Call : Type 0 where
  files : Env → String → String → String → String → String → Call
  marks : Bool → String → String → Call
  deletes : Bool → String → Call
  prunes : Bool → ℕ → Call

-- The table after a statement that may fail.
abbrev left : List AbuseReport → Result StoreError (List AbuseReport) → List AbuseReport
left rows (ok rows') = rows'
left rows (err e) = rows

abbrev left_of_prune :
    List AbuseReport → Result StoreError (List AbuseReport × ℕ) → List AbuseReport
left_of_prune rows (ok (rows', n)) = rows'
left_of_prune rows (err e) = rows

pub step : List AbuseReport → Call → List AbuseReport
unfolding submit_report update_report_status delete_report prune_resolved_reports
step rows (files env reporter target_type target reason details) =
    (submit_report env reporter target_type target reason details rows).0
step rows (marks up i status) = (update_report_status up i status rows).0
step rows (deletes up i) = left rows (delete_report up i rows)
step rows (prunes up older_than) = left_of_prune rows (prune_resolved_reports up older_than rows)

pub run_reports : List AbuseReport → List Call → List AbuseReport
run_reports rows [] = rows
run_reports rows (c ∷ cs) = run_reports (step rows c) cs

-- The calls that do not name the report.
abbrev pub IsElsewhere : String → Call → Type 0
IsElsewhere i (files env reporter target_type target reason details) = Unit
IsElsewhere i (marks up j status) = j ≢ i
IsElsewhere i (deletes up j) = j ≢ i
IsElsewhere i (prunes up older_than) = Unit

find?-append_found :
    (i : String) (rows more : List AbuseReport) (r : AbuseReport)
    → find? (is_report i) rows ≡ some r
    → find? (is_report i) (rows ++ more) ≡ some r
unfolding find?
find?-append_found i [] more r h = ground arith
find?-append_found i (x ∷ rows) more r h = ground (arith, find?-append_found i rows more r)

find?-mark_other :
    (i j status : String) (rows : List AbuseReport)
    → j ≢ i
    → find? (is_report i) (update (is_report j) (with_status status) rows)
      ≡ find? (is_report i) rows
unfolding find? update
find?-mark_other i j status [] n = refl
find?-mark_other i j status (x ∷ rows) n =
    ground (arith, find?-mark_other i j status rows n, eq_iff x.id i, eq_iff x.id j)

-- The report stands where the statement runs.
abbrev Keeps : String → AbuseReport → Result StoreError (List AbuseReport) → Type 0
Keeps i r = OnOk (λ rows. find? (is_report i) rows ≡ some r)

create_report-Keeps :
    (up : Bool) (new : AbuseReport) (rows : List AbuseReport) (i : String) (r : AbuseReport)
    → find? (is_report i) rows ≡ some r
    → Keeps i r (create_report up new rows)
unfolding create_report
create_report-Keeps false new rows i r h = tt
create_report-Keeps true new rows i r h =
    if_cases (Keeps i r) (ltb 0 (count (is_report new.id) rows)) (λ taken. tt)
      (λ free. find?-append_found i rows _ r h)

write_status-Keeps :
    (up : Bool) (j status : String) (rows : List AbuseReport) (i : String) (r : AbuseReport)
    → find? (is_report i) rows ≡ some r
    → j ≢ i
    → Keeps i r (write_status up j status rows)
unfolding write_status
write_status-Keeps false j status rows i r h n = tt
write_status-Keeps true j status rows i r h n =
    if_cases (Keeps i r) (ltb 0 (count (is_report j) rows))
      (λ there. rw (find?-mark_other i j status rows n) h) (λ absent. tt)

delete_report-Keeps :
    (up : Bool) (j : String) (rows : List AbuseReport) (i : String) (r : AbuseReport)
    → find? (is_report i) rows ≡ some r
    → j ≢ i
    → Keeps i r (delete_report up j rows)
unfolding delete_report
delete_report-Keeps false j rows i r h n = tt
delete_report-Keeps true j rows i r h n =
    if_cases (Keeps i r) (ltb 0 (count (is_report j) rows))
      (λ there.
        find?-remove_miss (is_report i) (is_report j) rows r h
          (ground (arith, find?-holds (is_report i) rows r h, eq_iff r.id i, eq_iff r.id j)))
      (λ absent. tt)

reported-kept :
    (rows : List AbuseReport) (res : Result StoreError (List AbuseReport)) (i : String)
    (r : AbuseReport)
    → find? (is_report i) rows ≡ some r
    → Keeps i r res
    → find? (is_report i) (reported rows res).0 ≡ some r
unfolding reported
reported-kept rows (ok rows') i r h k = k
reported-kept rows (err e) i r h k = h

left-kept :
    (rows : List AbuseReport) (res : Result StoreError (List AbuseReport)) (i : String)
    (r : AbuseReport)
    → find? (is_report i) rows ≡ some r
    → Keeps i r res
    → find? (is_report i) (left rows res) ≡ some r
left-kept rows (ok rows') i r h k = k
left-kept rows (err e) i r h k = h

step-pending :
    (rows : List AbuseReport) (c : Call) (i : String) (r : AbuseReport)
    → find? (is_report i) rows ≡ some r
    → r.status ≡ "pending"
    → IsElsewhere i c
    → find? (is_report i) (step rows c) ≡ some r
unfolding step submit_report update_report_status prune_resolved_reports
step-pending rows (files env reporter target_type target reason details) i r h p e =
    reported-kept rows _ i r h (create_report-Keeps (env.up 0) _ rows i r h)
step-pending rows (marks up j status) i r h p e =
    if_cases {A = List AbuseReport × Option ReportError} (λ x. find? (is_report i) x.0 ≡ some r)
      (is_report_status status)
      (λ known.
        reported-kept rows (write_status up j status rows) i r h
          (write_status-Keeps up j status rows i r h e))
      (λ unknown. h)
step-pending rows (deletes up j) i r h p e =
    left-kept rows (delete_report up j rows) i r h (delete_report-Keeps up j rows i r h e)
step-pending rows (prunes false older_than) i r h p e = h
step-pending rows (prunes true older_than) i r h p e =
    find?-remove_miss (is_report i) (is_resolved_before older_than) rows r h (rw p (ground arith))

run-pending :
    (rows : List AbuseReport) (cs : List Call) (i : String) (r : AbuseReport)
    → find? (is_report i) rows ≡ some r
    → r.status ≡ "pending"
    → All (IsElsewhere i) cs
    → find? (is_report i) (run_reports rows cs) ≡ some r
unfolding run_reports
run-pending rows [] i r h p e = h
run-pending rows (c ∷ cs) i r h p e =
    run-pending (step rows c) cs i r (step-pending rows c i r h p e.0) p e.1

-- A pending report is found unchanged after any calls on the reports but those of UpdateReportStatus and
-- DeleteReport with its identifier, whatever the driver does: a pruning does not take it, however old.
pub get_report-pending :
    (rows : List AbuseReport) (cs : List Call) (i : String) (r : AbuseReport)
    → get_report true i rows ≡ ok r
    → r.status ≡ "pending"
    → All (IsElsewhere i) cs
    → get_report true i (run_reports rows cs) ≡ ok r
unfolding get_report report_or_missing
get_report-pending rows cs i r h p e = elim (Option-cases (find? (is_report i) rows)) [
  | inl absent ↦ ground (arith, absent)
  | inr (q, found) ↦ rw (run-pending rows cs i r (ground (arith, found)) p e) refl
]
