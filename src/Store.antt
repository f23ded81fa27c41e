-- ===== src/Store.antt =====
-- The writes of db/repository.py. A table is the list of its rows in the order of insertion.
pub mod Dedup
pub mod Laws
pub mod Valid
pub mod Stages
pub mod Settings
pub mod Merges
pub mod Retention
pub mod Newest
pub mod Unpolled
pub mod Listing
pub mod Pages
pub use llopster.Models.{
  TriageDecision, Investigation, PatchProposal, ContextColumns, LlmColumns, OperatorLabel, Run, Db,
}
use llopster.Base.{
  ℕ, Option, none, some, List, [], ◌∷◌, ◌++◌, Bool, true, false, ◌&&◌, ◌||◌, if◌then◌else◌,
  is_empty, is_some, leb, ltb, length, filter, any, Text, lit, text_eq, member, strip, lower,
}
use llopster.Base.Int.{ℤ}
use llopster.Alerts.{ParsedAlert, compute_dedup_key, get}
use llopster.Alerts.Payload.{RawAlert}
use llopster.Messages.{Status, pending, Message}

-- A fresh row. The primary key and the time come from outside.
unfoldable pub new_run : Text → ℕ → ParsedAlert → List RawAlert → Text → Run
new_run id now alert raw_payload trigger_source = record {
  id = id;
  fingerprint = alert.fingerprint;
  dedup_key = compute_dedup_key alert;
  created_at = now;
  alertname = alert.alertname;
  service = alert.service;
  severity = alert.severity;
  status = alert.status;
  alert_payload = raw_payload;
  trigger_source = trigger_source;
  context = none;
  triage = none;
  investigation = none;
  llm = none;
  pr_opened = false;
  pr_url = none;
  pr_number = none;
  pr_branch = none;
  pr_skip_reason = none;
  pr_status = none;
  pr_merged_at = none;
  slack_notified = false;
  slack_skip_reason = none;
  operator_label = none;
  processing_status = pending;
  error_message = none;
}

unfoldable pub create_run_from_alert : Text → ℕ → ParsedAlert → List RawAlert → Text → Db → Db
unfolding new_run
create_run_from_alert id now alert raw_payload trigger_source db = record db {
  runs = db.runs ++ (new_run id now alert raw_payload trigger_source ∷ []);
}

unfoldable pub find_row : Text → List Run → Option Run
find_row id [] = none
find_row id (run ∷ runs) = if text_eq run.id id then some run else find_row id runs

-- `session.get(Run, run_id)`
unfoldable pub get_run : Text → Db → Option Run
unfolding find_row
get_run id db = find_row id db.runs

-- The row with the key is changed; a missing row is passed over, as each write does.
unfoldable pub change_row : Text → (Run → Run) → List Run → List Run
change_row id f [] = []
change_row id f (run ∷ runs) =
    let rest = change_row id f runs in if text_eq run.id id then f run ∷ runs else run ∷ rest

unfoldable pub modify : Text → (Run → Run) → Db → Db
unfolding change_row
modify id f db = record db { runs = change_row id f db.runs }

abbrev pub set_status : Status → Option Message → Run → Run
set_status status none run = record run { processing_status = status }
set_status status (some error) run = record run {
  processing_status = status;
  error_message = some error;
}

unfoldable pub update_status : Text → Status → Option Message → Db → Db
unfolding modify
update_status id status error = modify id (set_status status error)

unfoldable pub record_triage : Text → TriageDecision → Db → Db
unfolding modify
record_triage id decision = modify id (λ run. record run { triage = some decision })

unfoldable pub record_investigation : Text → Investigation → ℕ → Db → Db
unfolding modify
record_investigation id investigation latency_ms =
    modify id (λ run. record run { investigation = some (investigation, latency_ms) })

unfoldable pub record_collected_context : Text → ContextColumns → Db → Db
unfolding modify
record_collected_context id context = modify id (λ run. record run { context = some context })

unfoldable pub record_llm_response : Text → LlmColumns → Db → Db
unfolding modify
record_llm_response id columns = modify id (λ run. record run { llm = some columns })

unfoldable pub record_pr : Text → Option Text → Option ℕ → Option Text → Option Message → Db → Db
unfolding modify
record_pr id pr_url pr_number pr_branch skip_reason = modify id λ run. record run {
  pr_opened = is_some pr_url;
  pr_url = pr_url;
  pr_number = pr_number;
  pr_branch = pr_branch;
  pr_skip_reason = skip_reason;
}

unfoldable pub record_notification : Text → Bool → Option Message → Db → Db
unfolding modify
record_notification id notified skip_reason =
    modify id λ run. record run { slack_notified = notified; slack_skip_reason = skip_reason }

-- The merge time is stamped the first time that the merge is seen.
abbrev pub stamp_merge : Bool → ℕ → Option ℕ → Option ℕ
stamp_merge merged now (some at) = some at
stamp_merge merged now none = if merged then some now else none

unfoldable pub update_pr_status : Text → Text → ℕ → Db → Db
unfolding modify
update_pr_status id pr_status now = modify id λ run. record run {
  pr_status = some pr_status;
  pr_merged_at = stamp_merge (text_eq pr_status (lit "merged")) now run.pr_merged_at;
}

unfoldable pub get_setting : Text → Db → Option Text
unfolding get
get_setting key db = get key db.settings

unfoldable pub put_setting : Text → Text → List (Text × Text) → List (Text × Text)
put_setting key value [] = (key, value) ∷ []
put_setting key value ((k, v) ∷ rest) =
    if text_eq k key then (k, value) ∷ rest else (k, v) ∷ put_setting key value rest

unfoldable pub set_setting : Text → Text → Db → Db
unfolding put_setting
set_setting key value db = record db { settings = put_setting key value db.settings }

abbrev pub operator_labels : List Text
operator_labels = lit "correct" ∷ lit "wrong" ∷ lit "partial" ∷ lit "na" ∷ []

abbrev pub blank_to_none : Text → Option Text
blank_to_none text = if is_empty text then none else some text

-- `(label or "").strip().lower() or None`
unfoldable pub normalize_label : Text → Option Text
normalize_label label = blank_to_none (lower (strip label))

-- `none` is the `ValueError` of a label that is not known; else the new database and the row. A
-- missing label or note is the empty text.
unfoldable pub set_operator_label :
    Text → Text → Text → Option Text → ℕ → Db → Option (Db × Option Run)
unfolding normalize_label modify get_run
set_operator_label id label note labeled_by now db = elim (normalize_label label) [
  | none ↦ elim (get_run id db) [
    | none ↦ some (db, none)
    | some run ↦
        let db' = modify id (λ run. record run { operator_label = none }) db in
        some (db', get_run id db')
  ]
  | some normalized ↦
      if member normalized operator_labels
      then elim (get_run id db) [
        | none ↦ some (db, none)
        | some run ↦
            let verdict : OperatorLabel = record {
              label = normalized;
              note = blank_to_none (strip note);
              labeled_at = now;
              labeled_by = labeled_by;
            } in
            let db' = modify id (λ run. record run { operator_label = some verdict }) db in
            some (db', get_run id db')
      ]
      else none
]

-- Rows created before `cutoff` go; the number of them is returned.
unfoldable pub delete_runs_older_than : ℕ → Db → Db × ℕ
delete_runs_older_than cutoff db = (
  record db { runs = filter (λ run. leb cutoff run.created_at) db.runs },
  length (filter (λ run. ltb run.created_at cutoff) db.runs),
)

unfoldable pub count_runs_since : ℕ → Db → ℕ
count_runs_since since db = length (filter (λ run. leb since run.created_at) db.runs)
