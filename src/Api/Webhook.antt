-- ===== src/Api/Webhook.antt =====
-- api/main.py, `alertmanager_webhook`. The primary key and the creation time of the row that is made
-- for the i-th alert of a batch are parameters. A run that is started is an effect; its own steps are
-- those of `process_alert`.
use Prim.Native.Nat.{suc}
use llopster.Base.{ℕ, Option, none, some, List, [], ◌∷◌, Bool, true, false, Text, lit, length}
use llopster.Alerts.{ParsedAlert, compute_dedup_key}
use llopster.Alerts.Payload.{RawAlert, parse_alertmanager_payload}
use llopster.Messages.{Status, pending, queued, awaiting_dispatch, isoformat_error}
use llopster.Store.{Run, create_run_from_alert, update_status}
use llopster.Store.Dedup.{find_open_run_by_dedup_key}
use llopster.Process.World.{
  M, Result, ok, raise, pure, lift, query, write, emit, task_created, ◌>>=◌, ◌>>◌,
}
use llopster.Process.Breaker.{Mode, manual, autopilot, get_processing_mode}

-- One entry of the answer.
pub record Summary : Type 0 where
  pub run_id : Text
  pub alertname : Text
  pub service : Text
  pub status : Status
  pub deduped : Bool

abbrev pub parsed_or_raise : Option (List ParsedAlert) → Result (List ParsedAlert)
parsed_or_raise none = raise isoformat_error
parsed_or_raise (some alerts) = ok alerts

pub record WebhookResponse : Type 0 where
  pub received : ℕ
  pub alerts : List Summary
  pub mode : Mode

module _ (fresh_id : ℕ → Text) (now : ℕ → ℕ) (payload : List RawAlert) where
  module _ (mode : Mode) where
    abbrev pub summary : Text → ParsedAlert → Status → Bool → Summary
    summary run_id alert status deduped = record {
      run_id = run_id;
      alertname = alert.alertname;
      service = alert.service;
      status = status;
      deduped = deduped;
    }

    -- In manual mode the new run is parked, else it is started.
    abbrev pub dispatch_new : Mode → Text → ParsedAlert → M Summary
    dispatch_new manual run_id alert = do
      write (update_status run_id queued (some awaiting_dispatch))
      pure (summary run_id alert queued false)
    dispatch_new autopilot run_id alert = do
      emit (task_created run_id alert none true)
      pure (summary run_id alert pending false)

    abbrev pub unless_open : ℕ → ParsedAlert → Option Run → M Summary
    unless_open i alert (some run) = pure (summary run.id alert run.processing_status true)
    unless_open i alert none = do
      write (create_run_from_alert (fresh_id i) (now i) alert payload (lit "alertmanager"))
      dispatch_new mode (fresh_id i) alert

    unfoldable pub webhook_alert : ℕ → ParsedAlert → M Summary
    unfolding find_open_run_by_dedup_key compute_dedup_key create_run_from_alert update_status
    webhook_alert i alert = do
      existing ← query (find_open_run_by_dedup_key (compute_dedup_key alert))
      unless_open i alert existing

    unfoldable pub webhook_alerts : ℕ → List ParsedAlert → M (List Summary)
    unfolding webhook_alert
    webhook_alerts i [] = pure []
    webhook_alerts i (alert ∷ alerts) = do
      first ← webhook_alert i alert
      others ← webhook_alerts (suc i) alerts
      pure (first ∷ others)

  -- The mode is read once for the batch.
  unfoldable pub alertmanager_webhook : (Text → Option ℕ) → M WebhookResponse
  unfolding webhook_alerts get_processing_mode parse_alertmanager_payload
  alertmanager_webhook fromisoformat = do
    alerts ← lift (parsed_or_raise (parse_alertmanager_payload fromisoformat payload))
    mode ← query get_processing_mode
    summaries ← webhook_alerts mode 0 alerts
    pure (record { received = length alerts; alerts = summaries; mode = mode })
