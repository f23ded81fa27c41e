-- ===== src/Api/Again.antt =====
-- api/main.py: a payload that AlertManager sends again.
use mathlib.Core.Path.{subst}
use llopster.Base.{
  ℕ, ◌≡◌, refl, ◌∙◌, Option, none, some, List, [], ◌∷◌, true, Text, suc, All, is_some,
}
use llopster.Alerts.{ParsedAlert, compute_dedup_key}
use llopster.Alerts.Payload.{RawAlert, parse_alertmanager_payload}
use llopster.Store.{Run, Db}
use llopster.Store.Dedup.{find_open_run_by_dedup_key}
use llopster.Store.Newest.{has_open, is_some-find_open_run_by_dedup_key}
use llopster.Store.Valid.{IsValidDb}
use llopster.Process.World.{World, Effect, ok, pure, lift, db_op, ◌>>=◌}
use llopster.Process.Breaker.{Mode, get_processing_mode}
use llopster.Api.Webhook.{
  Summary, WebhookResponse, webhook_alert, webhook_alerts, alertmanager_webhook,
}
use llopster.Api.Rows.{IsFresh}
use llopster.Api.Once.{AreDistinctIds, AtMostOneOpen}
use llopster.Api.Results.{outcome_opens, outcome_parsed, alertmanager_webhook-Outcome, Outcome}

abbrev calm : Db → List Effect → World
calm db effects = record { db = db; faults = []; effects = effects }

found : (o : Option Run) → is_some o ≡ true → (run : Run) × (o ≡ some run)
found none h = absurd (cc)
found (some run) h = (run, refl)

module _ (fresh_id : ℕ → Text) (now : ℕ → ℕ) (payload : List RawAlert) where
  module _ (mode : Mode) (db : Db) (effects : List Effect) where
    alert_again :
        (i : ℕ) (alert : ParsedAlert)
        → has_open (compute_dedup_key alert) db ≡ true
        → (s : Summary) × (webhook_alert fresh_id now payload mode i alert (calm db effects)
            ≡ (ok s, calm db effects))
    unfolding webhook_alert ◌>>=◌ db_op pure
    alert_again i alert h =
        let (run, e) =
          found (find_open_run_by_dedup_key (compute_dedup_key alert) db)
            (is_some-find_open_run_by_dedup_key (compute_dedup_key alert) db ∙ h) in
        rw e (_, refl)

    alerts_again :
        (i : ℕ) (alerts : List ParsedAlert)
        → All (λ alert. has_open (compute_dedup_key alert) db ≡ true) alerts
        → (s : List Summary) × (webhook_alerts fresh_id now payload mode i alerts (calm db effects)
            ≡ (ok s, calm db effects))
    unfolding webhook_alerts ◌>>=◌ pure
    alerts_again i [] h = ([], refl)
    alerts_again i (alert ∷ alerts) (a, h) =
        let (s, e) = alert_again i alert a in
        let (ss, f) = alerts_again (suc i) alerts h in (s ∷ ss, rw (e, f))

  webhook_again :
      (fromisoformat : Text → Option ℕ) (db : Db) (effects : List Effect)
      (alerts : List ParsedAlert)
      → parse_alertmanager_payload fromisoformat payload ≡ some alerts
      → All (λ alert. has_open (compute_dedup_key alert) db ≡ true) alerts
      → (response : WebhookResponse) × (alertmanager_webhook fresh_id now payload fromisoformat
            (calm db effects)
          ≡ (ok response, calm db effects))
  unfolding alertmanager_webhook ◌>>=◌ lift db_op pure
  webhook_again fromisoformat db effects alerts e h =
      let (ss, f) = alerts_again (get_processing_mode db) db effects 0 alerts h in
      rw (e, f) (_, refl)

-- A call of the webhook that returned a response is followed by a second one with the same payload,
-- whose primary keys and times are any, and in which the database does not fail: the second one
-- returns a response too, and it changes neither the database nor starts a background run. The
-- conditions are those of the first call: new and distinct primary keys and a table of agreeing
-- columns and distinct keys, with at most one open run for each deduplication key.
pub alertmanager_webhook_again :
    (fresh_id : ℕ → Text) (distinct : AreDistinctIds fresh_id) (now : ℕ → ℕ)
    (payload : List RawAlert) (fromisoformat : Text → Option ℕ) (w : World)
    → IsFresh fresh_id 0 w.db
    → AtMostOneOpen w.db
    → IsValidDb w.db
    → (response : WebhookResponse)
    → (alertmanager_webhook fresh_id now payload fromisoformat w).0 ≡ ok response
    → (fresh_id' : ℕ → Text) (now' : ℕ → ℕ)
    → let v = record (alertmanager_webhook fresh_id now payload fromisoformat w).1 {
      faults = [];
    } in
      (again : WebhookResponse) × (alertmanager_webhook fresh_id' now' payload fromisoformat v
        ≡ (ok again, v))
alertmanager_webhook_again fresh_id distinct now payload fromisoformat w f s v response r fresh_id'
      now' =
    let o =
      subst
        (λ x.
          Outcome fresh_id distinct now payload fromisoformat w
            (alertmanager_webhook fresh_id now payload fromisoformat w).1 x)
        r (alertmanager_webhook-Outcome fresh_id distinct now payload fromisoformat w f s v) in
    let (alerts, e) = outcome_parsed fresh_id distinct now payload fromisoformat o in
    webhook_again fresh_id' now' payload fromisoformat _ _ alerts e
      (outcome_opens fresh_id distinct now payload fromisoformat alerts o e)
