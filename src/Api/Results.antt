-- ===== src/Api/Results.antt =====
-- api/main.py: what a call of `alertmanager_webhook` leaves behind.
use mathlib.Core.Path.{subst}
use llopster.Base.{
  some_inj, ℕ, ◌≡◌, refl, sym, ◌∙◌, Option, some, List, [], ◌∷◌, true, Text, arith, All,
  length-filter_some, Option-cases, inl, inr,
}
use llopster.Alerts.{ParsedAlert, compute_dedup_key}
use llopster.Alerts.Payload.{RawAlert, parse_alertmanager_payload}
use llopster.Store.{Run, Db}
use llopster.Store.Dedup.{is_open_for}
use llopster.Store.Newest.{has_open}
use llopster.Store.Valid.{IsValidDb}
use llopster.Process.World.{World, Result, ok, raise, pure, continue, lift, ◌>>=◌}
use llopster.Process.Rules.{db_op_bind}
use llopster.Process.Breaker.{manual, get_processing_mode}
use llopster.Api.Webhook.{Summary, WebhookResponse, alertmanager_webhook}
use llopster.Api.Rows.{IsFresh}
use llopster.Api.Once.{AreDistinctIds, AtMostOneOpen, open_count}
use llopster.System.{Steps, at}
use llopster.Api.Batch.{same_db, Batch, webhook_alerts-Batch}

module _ (fresh_id : ℕ → Text) (distinct : AreDistinctIds fresh_id) (now : ℕ → ℕ)
    (payload : List RawAlert) (fromisoformat : Text → Option ℕ) where
  pub data Outcome (w w' : World) : Result WebhookResponse → Type 0 where
    refused : {e : _} → w'.db ≡ w.db → w'.effects ≡ w.effects → Outcome w w' (raise e)
    batched :
        {r : Result WebhookResponse} (alerts : List ParsedAlert) (q : Result (List Summary))
        → parse_alertmanager_payload fromisoformat payload ≡ some alerts
        → Batch (get_processing_mode w.db) alerts w w' q
        → ((response : WebhookResponse) → r ≡ ok response → (s : List Summary) × (q ≡ ok s))
        → Outcome w w' r

  answered :
      (w x : World) (alerts : List ParsedAlert) (q : Result (List Summary))
      (g : List Summary → WebhookResponse)
      → parse_alertmanager_payload fromisoformat payload ≡ some alerts
      → Batch (get_processing_mode w.db) alerts w x q
      → Outcome w (continue q (λ s. pure (g s)) x).1 (continue q (λ s. pure (g s)) x).0
  unfolding pure
  answered w x alerts (ok s) g e b = batched alerts (ok s) e b (λ response h. (s, refl))
  answered w x alerts (raise y) g e b = batched alerts (raise y) e b (λ response h. absurd (cc))

  pub alertmanager_webhook-Outcome :
      (w : World)
      → IsFresh fresh_id 0 w.db
      → AtMostOneOpen w.db
      → IsValidDb w.db
      → Outcome w
          (alertmanager_webhook fresh_id now payload fromisoformat w).1
          (alertmanager_webhook fresh_id now payload fromisoformat w).0
  unfolding alertmanager_webhook ◌>>=◌ lift
  alertmanager_webhook-Outcome w f s v =
      elim (Option-cases (parse_alertmanager_payload fromisoformat payload)) [
        | inl e ↦ rw e (refused refl refl)
        | inr (alerts, e) ↦ rw e (
            db_op_bind _ _ (λ p. Outcome w p.1 p.0) w (λ fs. refused refl refl)
              (λ fs.
                let w' = record w { faults = fs } in
                let b =
                  webhook_alerts-Batch fresh_id distinct now payload (get_processing_mode w.db) 0
                    alerts w' (record { single = s; valid = v; fresh = f }) in
                answered w _ alerts _ _ e (record {
                  single = b.single;
                  valid = b.valid;
                  grows = b.grows;
                  opens = b.opens;
                  silent = b.silent;
                  steps = b.steps;
                })))
      ]

  outcome-single :
      {w w' : World} {r : Result WebhookResponse}
      → Outcome w w' r
      → AtMostOneOpen w.db
      → AtMostOneOpen w'.db
  outcome-single (refused d x) s = rw d s
  outcome-single (batched alerts q e b k) s = b.single

  outcome_valid :
      {w w' : World} {r : Result WebhookResponse}
      → Outcome w w' r
      → IsValidDb w.db
      → IsValidDb w'.db
  outcome_valid (refused d x) v = rw d v
  outcome_valid (batched alerts q e b k) v = b.valid

  outcome_silent :
      {w w' : World} {r : Result WebhookResponse}
      → Outcome w w' r
      → get_processing_mode w.db ≡ manual
      → w'.effects ≡ w.effects
  outcome_silent (refused d x) m = x
  outcome_silent (batched alerts q e b k) m = b.silent m

  outcome-Steps :
      {w w' : World} {r : Result WebhookResponse}
      → Outcome w w' r
      → (listed : List Run) → Steps (at w listed) (at w' listed)
  outcome-Steps {w} {w'} (refused d x) listed = same_db w w' listed d
  outcome-Steps (batched alerts q e b k) listed = b.steps listed

  one_open :
      (db : Db) (alerts : List ParsedAlert)
      → AtMostOneOpen db
      → All (λ alert. has_open (compute_dedup_key alert) db ≡ true) alerts
      → All (λ alert. open_count (compute_dedup_key alert) db ≡ 1) alerts
  one_open db [] s h = tt
  one_open db (alert ∷ alerts) s (a, h) = (
    omega (
      arith,
      s (compute_dedup_key alert),
      length-filter_some (is_open_for (compute_dedup_key alert)) db.runs a,
    ),
    one_open db alerts s h,
  )

  pub outcome_parsed :
      {w w' : World} {response : WebhookResponse}
      → Outcome w w' (ok response)
      → (alerts : List ParsedAlert) × (parse_alertmanager_payload fromisoformat payload
          ≡ some alerts)
  outcome_parsed (batched alerts q e b k) = (alerts, e)

  pub outcome_opens :
      {w w' : World} {response : WebhookResponse} (alerts : List ParsedAlert)
      → Outcome w w' (ok response)
      → parse_alertmanager_payload fromisoformat payload ≡ some alerts
      → All (λ alert. has_open (compute_dedup_key alert) w'.db ≡ true) alerts
  outcome_opens {w} {w'} {response} alerts (batched other q e b k) h =
      rw (some_inj (sym h ∙ e)) (b.opens (k response refl).0 (k response refl).1)

  module _ (w : World) (fresh : IsFresh fresh_id 0 w.db) (single : AtMostOneOpen w.db)
      (valid : IsValidDb w.db) where
    -- Given new and distinct primary keys and a table of agreeing columns and distinct keys, with at
    -- most one open run for each deduplication key: a call of the webhook, whatever its payload is
    -- and wherever the database fails, leaves such a table.
    pub alertmanager_webhook-AtMostOneOpen :
        AtMostOneOpen (alertmanager_webhook fresh_id now payload fromisoformat w).1.db
        × IsValidDb (alertmanager_webhook fresh_id now payload fromisoformat w).1.db
    alertmanager_webhook-AtMostOneOpen =
        let o = alertmanager_webhook-Outcome w fresh single valid in
        (outcome-single o single, outcome_valid o valid)

    -- Given new and distinct primary keys and a table of agreeing columns and distinct keys, with at
    -- most one open run for each deduplication key: a call of the webhook that returns a response
    -- has left exactly one open run for the key of each alert of the payload.
    pub alertmanager_webhook_opens :
        (response : WebhookResponse) (alerts : List ParsedAlert)
        → parse_alertmanager_payload fromisoformat payload ≡ some alerts
        → (alertmanager_webhook fresh_id now payload fromisoformat w).0 ≡ ok response
        → All
            (λ alert.
              open_count
                (compute_dedup_key alert)
                (alertmanager_webhook fresh_id now payload fromisoformat w).1.db
              ≡ 1)
            alerts
    alertmanager_webhook_opens response alerts e r =
        let o =
          subst (λ x. Outcome w (alertmanager_webhook fresh_id now payload fromisoformat w).1 x) r
            (alertmanager_webhook-Outcome w fresh single valid) in
        one_open (alertmanager_webhook fresh_id now payload fromisoformat w).1.db alerts
          alertmanager_webhook-AtMostOneOpen.0 (outcome_opens alerts o e)

    -- Given new and distinct primary keys and a table of agreeing columns and distinct keys, with at
    -- most one open run for each deduplication key: a call of the webhook in manual mode starts no
    -- background run and calls no collaborator.
    pub alertmanager_webhook_manual :
        get_processing_mode w.db ≡ manual
        → (alertmanager_webhook fresh_id now payload fromisoformat w).1.effects ≡ w.effects
    alertmanager_webhook_manual m =
        outcome_silent (alertmanager_webhook-Outcome w fresh single valid) m

    -- Given new and distinct primary keys and a table of agreeing columns and distinct keys, with at
    -- most one open run for each deduplication key: a call of the webhook is a sequence of steps of
    -- the system.
    pub alertmanager_webhook-Steps :
        (listed : List Run)
        → Steps
            (at w listed)
            (at (alertmanager_webhook fresh_id now payload fromisoformat w).1 listed)
    alertmanager_webhook-Steps listed =
        outcome-Steps (alertmanager_webhook-Outcome w fresh single valid) listed
