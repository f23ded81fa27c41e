-- ===== src/Api/Trigger.antt =====
-- api/trigger_routes.py: `trigger_submit` and `trigger_dispatch`. The primary key and the times of a
-- new row are parameters, as are the fingerprint and the start of a synthesised alert.
use llopster.Base.{
  ℕ, Option, none, some, List, [], ◌∷◌, Bool, true, false, ◌||◌, if◌then◌else◌, is_empty, Text, lit,
  text_eq, strip,
}
use llopster.Base.Int.{ℤ}
use llopster.Alerts.{ParsedAlert, or_empty}
use llopster.Alerts.Payload.{RawAlert, parse_alertmanager_payload, alert_to_payload, pick_alert}
use llopster.Messages.{Status, pending, queued}
use llopster.Store.{Run, get_run, create_run_from_alert, update_status}
use llopster.Process.World.{
  M, Result, ok, pure, lift, query, write, emit, int, task_created, ◌>>=◌, ◌>>◌,
}
use llopster.Process.Gates.{to_some}
use llopster.Api.Webhook.{parsed_or_raise}

-- The status of an `HTTPException`, or the run to whose page the answer redirects.
pub data Response : Type 0 where
  http_exception : ℕ → Response
  redirect : Text → Response

-- A field that is left out is none.
pub record Form : Type 0 where
  pub mode : Text
  pub replay_run_id : Option Text
  pub service : Option Text
  pub alertname : Option Text
  pub severity : Option Text
  pub summary : Option Text
  pub description : Option Text
  pub lookback_minutes : Option Text

-- The parameters.
pub record Fresh : Type 0 where
  pub run_id : Text
  pub created_at : ℕ
  pub fingerprint : Text
  pub starts_at : ℕ
  pub fromisoformat : Text → Option ℕ
  pub isoformat : ℕ → Text

abbrev int_unless_blank : Text → Result (Option ℤ)
int_unless_blank raw = if is_empty raw then ok none else to_some (int raw)

unfoldable pub effective_lookback : Option Text → Result (Option ℤ)
unfolding strip
effective_lookback minutes = int_unless_blank (strip (or_empty minutes))

-- `value or default`
abbrev pub or_text : Text → Option Text → Text
or_text default value = if is_empty (or_empty value) then default else or_empty value

unfoldable pub synthesized : Fresh → Form → ParsedAlert
synthesized fresh form =
    let severity = or_text (lit "warning") form.severity in
    record {
      fingerprint = fresh.fingerprint;
      status = lit "firing";
      alertname = or_empty form.alertname;
      severity = severity;
      service = or_empty form.service;
      summary = or_empty form.summary;
      description = or_empty form.description;
      starts_at = some fresh.starts_at;
      ends_at = none;
      labels =
          (lit "alertname", or_empty form.alertname)
          ∷ (lit "severity", severity)
          ∷ (lit "service", or_empty form.service)
          ∷ [];
      annotations =
          (lit "summary", or_empty form.summary)
          ∷ (lit "description", or_empty form.description)
          ∷ [];
      generator_url = [];
    }

module _ (fresh : Fresh) where
  -- The run is created and started; the cost breaker is not enforced.
  unfoldable pub start : ParsedAlert → List RawAlert → Option ℤ → M Response
  unfolding create_run_from_alert
  start alert raw_payload lookback = do
    write (create_run_from_alert fresh.run_id fresh.created_at alert raw_payload (lit "manual"))
    emit (task_created fresh.run_id alert lookback false)
    pure (redirect fresh.run_id)

  abbrev pub replay_alert : Option ℤ → List RawAlert → Option ParsedAlert → M Response
  replay_alert lookback payload none = pure (http_exception 422)
  replay_alert lookback payload (some alert) = start alert payload lookback

  abbrev pub replay_run : Option ℤ → Option Run → M Response
  replay_run lookback none = pure (http_exception 404)
  replay_run lookback (some run) = do
    alerts ←
        lift (parsed_or_raise (parse_alertmanager_payload fresh.fromisoformat run.alert_payload))
    replay_alert lookback run.alert_payload (pick_alert run.fingerprint alerts)

  unfoldable pub replay : Form → Option ℤ → M Response
  unfolding start get_run parse_alertmanager_payload pick_alert
  replay form lookback =
      if is_empty (or_empty form.replay_run_id)
      then pure (http_exception 422)
      else (do source ← query (get_run (or_empty form.replay_run_id)); replay_run lookback source)

  unfoldable pub synthesize : Form → Option ℤ → M Response
  unfolding start synthesized alert_to_payload
  synthesize form lookback =
      if is_empty (or_empty form.service) || is_empty (or_empty form.alertname)
      then pure (http_exception 422)
      else start (synthesized fresh form)
          (alert_to_payload fresh.isoformat (synthesized fresh form) ∷ []) lookback

  unfoldable pub trigger_submit : Form → M Response
  unfolding replay synthesize effective_lookback text_eq
  trigger_submit form = do
    lookback ← lift (effective_lookback form.lookback_minutes)
    if text_eq form.mode (lit "replay")
        then replay form lookback
        else if text_eq form.mode (lit "synthesize")
        then synthesize form lookback
        else pure (http_exception 422)

abbrev pub is_queued : Status → Bool
is_queued queued = true
is_queued _ = false

module _ (fromisoformat : Text → Option ℕ) (run_id : Text) where
  abbrev pub dispatch_alert : Option ParsedAlert → M Response
  dispatch_alert none = pure (http_exception 422)
  dispatch_alert (some alert) = do
    write (update_status run_id pending none)
    emit (task_created run_id alert none false)
    pure (redirect run_id)

  abbrev pub dispatch_queued : Run → M Response
  dispatch_queued run = do
    alerts ← lift (parsed_or_raise (parse_alertmanager_payload fromisoformat run.alert_payload))
    dispatch_alert (pick_alert run.fingerprint alerts)

  abbrev pub dispatch_run : Option Run → M Response
  dispatch_run none = pure (http_exception 404)
  dispatch_run (some run) =
      if is_queued run.processing_status then dispatch_queued run else pure (http_exception 409)

  unfoldable pub trigger_dispatch : M Response
  unfolding get_run update_status parse_alertmanager_payload pick_alert
  trigger_dispatch = do run ← query (get_run run_id); dispatch_run run
