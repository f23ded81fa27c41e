-- ===== src/Tests/Api.antt =====
-- The results on the webhook, the trigger routes and the system at fixed inputs.
use llopster.Base.{
  ℕ, ◌≡◌, refl, ◌≤◌, none, some, List, [], ◌∷◌, true, false, Text, lit, text_eq, member, arith, All,
  length, filter, Option, lower, strip,
}
use llopster.Alerts.{ParsedAlert, compute_dedup_key, get}
use llopster.Alerts.Payload.{
  RawAlert, text, object, parse_alertmanager_payload, alert_to_payload, parse_alert, raw_text,
  raw_object,
}
use llopster.Alerts.RoundTrip.{IsLabelled, parse-alert_to_payload}
use llopster.Messages.{pending}
use llopster.Store.{Run, new_run, get_run}
use llopster.Store.Dedup.{is_open_for, find_open_run_by_dedup_key}
use llopster.Store.Valid.{IsValidDb}
use llopster.Process.World.{World, ok, ◌>>=◌}
use llopster.Process.Breaker.{autopilot, manual, get_processing_mode}
use llopster.Process.Alert.{process_alert}
use llopster.Process.Settles.{process_alert_settles}
use llopster.Process.Reach.{is_settled}
use llopster.Api.Webhook.{alertmanager_webhook, WebhookResponse}
use llopster.Api.Rows.{IsFresh}
use llopster.Api.Once.{AreDistinctIds, AtMostOneOpen, open_count}
use llopster.Api.Results.{
  alertmanager_webhook-AtMostOneOpen, alertmanager_webhook_opens, alertmanager_webhook_manual,
}
use llopster.Api.Again.{alertmanager_webhook_again}
use llopster.Tests.Data

process_alert_settles_example :
    (run' : Run) × (get_run
        (lit "r1")
        (process_alert Data.env (lit "r1") Data.crash Data.options Data.world).db
      ≡ some run')
    × (is_settled run'.processing_status ≡ true)
unfolding get_run lit text_eq new_run
process_alert_settles_example =
    process_alert_settles Data.env (lit "r1") Data.crash Data.options Data.world
      (new_run (lit "r1") 62999999999999999 Data.crash (Data.crash_payload ∷ []) (lit "webhook"))
      refl refl

abbrev labelled : ParsedAlert
labelled = record Data.crash {
  starts_at = some 5;
  annotations = (lit "summary", lit "s") ∷ (lit "description", lit "d") ∷ [];
  summary = lit "s";
  description = lit "d";
}

labels : IsLabelled labelled
unfolding get lit text_eq
labels = record {
  alertname = refl;
  severity = refl;
  service = refl;
  summary = refl;
  description = refl;
}

parse-alert_to_payload_example :
    parse_alertmanager_payload (λ s. some 1) (alert_to_payload (λ n. lit "t") labelled ∷ [])
    ≡ some (record labelled { starts_at = none; ends_at = none; generator_url = [] } ∷ [])
parse-alert_to_payload_example = parse-alert_to_payload (λ s. some 1) (λ n. lit "t") labelled labels

abbrev ids : ℕ → Text
ids i = i ∷ []

ids_distinct : AreDistinctIds ids
unfolding text_eq
ids_distinct i j h = ground arith

ids_fresh : IsFresh ids 0 Data.world.db
unfolding member text_eq lit new_run
ids_fresh j l = ground arith

one_row : (key : Text) (run : Run) → length (filter (is_open_for key) (run ∷ [])) ≤ 1
one_row key run = ground arith

single : AtMostOneOpen Data.world.db
single key = one_row key _

valid : IsValidDb Data.world.db
unfolding new_run member
valid = record { rows = ((refl, λ h. absurd (cc)), tt); keys = (refl, tt) }

-- The first alert's key has an open run, the second one's has none.
abbrev payload : List RawAlert
payload =
    Data.crash_payload
    ∷ ((lit "fingerprint", text (lit "f2"))
        ∷ (lit "labels", object ((lit "service", lit "db") ∷ []))
        ∷ [])
    ∷ []

abbrev second : ParsedAlert
second = record {
  fingerprint = lit "f2";
  status = lit "firing";
  alertname = lit "unknown";
  severity = lit "unknown";
  service = lit "db";
  summary = [];
  description = [];
  starts_at = none;
  ends_at = none;
  labels = (lit "service", lit "db") ∷ [];
  annotations = [];
  generator_url = [];
}

abbrev pub no_times : Text → Option ℕ
no_times s = none

parsed : parse_alertmanager_payload no_times payload ≡ some (Data.crash ∷ second ∷ [])
unfolding parse_alertmanager_payload parse_alert raw_text raw_object get lit text_eq
parsed = refl

abbrev response : WebhookResponse
response = record {
  received = 2;
  alerts =
      record {
        run_id = lit "r1";
        alertname = lit "PodCrash";
        service = lit "api";
        status = pending;
        deduped = true;
      }
      ∷ record {
        run_id = ids 1;
        alertname = lit "unknown";
        service = lit "db";
        status = pending;
        deduped = false;
      }
      ∷ [];
  mode = autopilot;
}

answered : (alertmanager_webhook ids (λ i. 7) payload no_times Data.world).0 ≡ ok response
unfolding alertmanager_webhook lit text_eq parse_alertmanager_payload find_open_run_by_dedup_key
    compute_dedup_key get_processing_mode new_run ◌>>=◌ lower strip
answered = refl

alertmanager_webhook-AtMostOneOpen_example :
    AtMostOneOpen (alertmanager_webhook ids (λ i. 7) payload no_times Data.world).1.db
    × IsValidDb (alertmanager_webhook ids (λ i. 7) payload no_times Data.world).1.db
alertmanager_webhook-AtMostOneOpen_example =
    alertmanager_webhook-AtMostOneOpen ids ids_distinct (λ i. 7) payload no_times Data.world
      ids_fresh single valid

alertmanager_webhook_opens_example :
    All
      (λ alert.
        open_count
          (compute_dedup_key alert)
          (alertmanager_webhook ids (λ i. 7) payload no_times Data.world).1.db
        ≡ 1)
      (Data.crash ∷ second ∷ [])
alertmanager_webhook_opens_example =
    alertmanager_webhook_opens ids ids_distinct (λ i. 7) payload no_times Data.world ids_fresh
      single valid response (Data.crash ∷ second ∷ []) parsed answered

alertmanager_webhook_again_example :
    let v = record (alertmanager_webhook ids (λ i. 7) payload no_times Data.world).1 {
      faults = [];
    } in
    (again : WebhookResponse) × (alertmanager_webhook (λ i. []) (λ i. 8) payload no_times v
      ≡ (ok again, v))
alertmanager_webhook_again_example =
    alertmanager_webhook_again ids ids_distinct (λ i. 7) payload no_times Data.world ids_fresh
      single valid response answered (λ i. []) (λ i. 8)

abbrev manual_world : World
manual_world = record Data.world {
  db = record Data.db { settings = (lit "processing_mode", lit "manual") ∷ [] };
}

in_manual_mode : get_processing_mode manual_world.db ≡ manual
unfolding get_processing_mode lit text_eq
in_manual_mode = refl

manual_fresh : IsFresh ids 0 manual_world.db
unfolding member text_eq lit new_run
manual_fresh j l = ground arith

manual_valid : IsValidDb manual_world.db
unfolding new_run member
manual_valid = record { rows = ((refl, λ h. absurd (cc)), tt); keys = (refl, tt) }

alertmanager_webhook_manual_example :
    (alertmanager_webhook ids (λ i. 7) payload no_times manual_world).1.effects
    ≡ manual_world.effects
alertmanager_webhook_manual_example =
    alertmanager_webhook_manual ids ids_distinct (λ i. 7) payload no_times manual_world manual_fresh
      (λ key. one_row key _) manual_valid in_manual_mode
