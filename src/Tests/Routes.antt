-- ===== src/Tests/Routes.antt =====
-- The results on the trigger routes and on the system at fixed inputs.
use llopster.Base.{
  ℕ, Text, ◌≡◌, refl, none, some, [], ◌∷◌, ◌++◌, true, false, lit, text_eq, member, Has, here, map,
  AreDistinct,
}
use llopster.Alerts.{get}
use llopster.Alerts.Payload.{parse_alertmanager_payload, parse_alert, raw_text, raw_object}
use llopster.Messages.{queued, awaiting_dispatch}
use llopster.Store.{Run, new_run, get_run, create_run_from_alert, update_status, modify}
use llopster.Store.Dedup.{list_open_prs, find_previous_merged_attempt, is_blocking}
use llopster.Store.Valid.{IsValidDb, run_id_of}
use llopster.Process.World.{World, ok, task_created}
use llopster.Api.Trigger.{Form, Fresh, trigger_dispatch, trigger_submit, redirect}
use llopster.Api.Dispatch.{Dispatched, trigger_dispatch-Dispatched}
use llopster.Api.Queue.{trigger_dispatch-parked, after_webhook}
use llopster.Api.Submit.{Submitted, trigger_submit-Submitted}
use llopster.Store.Stages.{pr_write}
use llopster.Store.{record_pr, Db}
use llopster.Store.Dedup.{find_open_run_by_dedup_key}
use llopster.Alerts.{compute_dedup_key}
use llopster.System.{State, Steps, created, staged, one, then_steps}
use llopster.System.Invariant.{Steps-IsValidDb}
use llopster.System.Null.{Steps-unpolled, Steps-blocked}
use llopster.Tests.Data
use llopster.Tests.Api.{no_times}

abbrev parked_world : World
parked_world = record {
  db = update_status (lit "r2") queued (some awaiting_dispatch) (
      create_run_from_alert (lit "r2") 9 Data.crash (Data.crash_payload ∷ []) (lit "alertmanager")
        Data.db);
  faults = [];
  effects = [];
}

trigger_dispatch-Dispatched_example :
    Dispatched no_times
      (lit "r2")
      parked_world
      (trigger_dispatch no_times (lit "r2") parked_world).1
      (trigger_dispatch no_times (lit "r2") parked_world).0
trigger_dispatch-Dispatched_example = trigger_dispatch-Dispatched no_times (lit "r2") parked_world

abbrev no_runs : Db
no_runs = record { runs = []; settings = [] }

new_key : member (lit "r2") (map run_id_of no_runs.runs) ≡ false
unfolding member text_eq lit new_run
new_key = refl

crash_parsed :
    parse_alertmanager_payload no_times (Data.crash_payload ∷ []) ≡ some (Data.crash ∷ [])
unfolding parse_alertmanager_payload parse_alert raw_text raw_object get lit text_eq
crash_parsed = refl

one_fingerprint : AreDistinct (map (λ a. a.fingerprint) (Data.crash ∷ []))
unfolding member
one_fingerprint = (refl, tt)

abbrev second_id : ℕ → Text
second_id i = lit "r2"

abbrev nine : ℕ → ℕ
nine i = 9

none_open : find_open_run_by_dedup_key (compute_dedup_key Data.crash) no_runs ≡ none
unfolding find_open_run_by_dedup_key compute_dedup_key
none_open = refl

abbrev webhook_world : World
webhook_world =
    after_webhook no_times second_id nine 0 Data.crash (Data.crash_payload ∷ []) (Data.crash ∷ [])
      no_runs []

trigger_dispatch-parked_example :
    ((trigger_dispatch no_times (lit "r2") webhook_world).0 ≡ ok (redirect (lit "r2")))
    × ((trigger_dispatch no_times (lit "r2") webhook_world).1.effects
        ≡ [] ++ (task_created (lit "r2") Data.crash none false ∷ []))
    × (get_run (lit "r2") (trigger_dispatch no_times (lit "r2") webhook_world).1.db
        ≡ some
            (record (new_run
              (lit "r2")
              9
              Data.crash
              (Data.crash_payload ∷ [])
              (lit "alertmanager")) { error_message = some awaiting_dispatch }))
trigger_dispatch-parked_example =
    trigger_dispatch-parked no_times second_id nine 0 Data.crash (Data.crash_payload ∷ [])
      (Data.crash ∷ []) no_runs [] none_open new_key crash_parsed one_fingerprint (here refl)

abbrev form : Form
form = record {
  mode = lit "synthesize";
  replay_run_id = none;
  service = some (lit "api");
  alertname = some (lit "Slow");
  severity = none;
  summary = none;
  description = none;
  lookback_minutes = some (lit "15");
}

abbrev fresh : Fresh
fresh = record {
  run_id = lit "r3";
  created_at = 9;
  fingerprint = lit "f3";
  starts_at = 9;
  fromisoformat = no_times;
  isoformat = λ n. lit "t";
}

trigger_submit-Submitted_example :
    Submitted fresh form Data.world
      (trigger_submit fresh form Data.world).1
      (trigger_submit fresh form Data.world).0
trigger_submit-Submitted_example = trigger_submit-Submitted fresh form Data.world

abbrev empty_state : State
empty_state = record { db = record { runs = []; settings = [] }; listed = [] }

abbrev first : Run
first = new_run (lit "r1") 9 Data.crash (Data.crash_payload ∷ []) (lit "alertmanager")

abbrev opened : State
opened = record {
  db = record_pr (lit "r1") (some (lit "url")) (some 7) (some (lit "branch")) none (
      create_run_from_alert (lit "r1") 9 Data.crash (Data.crash_payload ∷ []) (lit "alertmanager")
        empty_state.db);
  listed = [];
}

to_opened : Steps empty_state opened
unfolding member
to_opened =
    then_steps _ _ _
      (one (
        created empty_state (lit "r1") 9 Data.crash (Data.crash_payload ∷ []) (lit "alertmanager")
          refl))
      (one
        (staged _ (lit "r1") _ (pr_write (some (lit "url")) (some 7) (some (lit "branch")) none)))

start_valid : IsValidDb empty_state.db
start_valid = record { rows = tt; keys = tt }

Steps-IsValidDb_example : IsValidDb opened.db
Steps-IsValidDb_example = Steps-IsValidDb to_opened start_valid

Steps-unpolled_example :
    (list_open_prs opened.db ≡ []) × (find_previous_merged_attempt (lit "k") none opened.db ≡ none)
Steps-unpolled_example = Steps-unpolled empty_state opened (lit "k") none refl refl to_opened

abbrev opened_row : Run
opened_row = record first {
  pr_opened = true;
  pr_url = some (lit "url");
  pr_number = some 7;
  pr_branch = some (lit "branch");
}

opened_there : Has opened_row opened.db.runs
unfolding record_pr modify create_run_from_alert lit text_eq new_run
opened_there = here refl

Steps-blocked_example : is_blocking opened_row.dedup_key none opened_row ≡ true
Steps-blocked_example =
    Steps-blocked empty_state opened opened_row refl refl to_opened opened_there refl refl
