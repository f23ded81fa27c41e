-- ===== src/Api/Asked.antt =====
-- api/trigger_routes.py: what a form asks `trigger_submit` for.
use mathlib.Core.Path.{subst}
use llopster.Base.{
  strip, true, ◌≡◌, refl, sym, ◌∙◌, Option, none, some, List, [], ◌∷◌, false, Text, lit, is_empty,
  Bool-cases, inl, inr,
}
use llopster.Base.Int.{ℤ}
use llopster.Alerts.{ParsedAlert, or_empty}
use llopster.Alerts.Payload.{RawAlert, parse_alertmanager_payload, pick_alert, alert_to_payload}
use llopster.Store.{Run, Db, get_run}
use llopster.Process.Gates.{to_some}
use llopster.Process.World.{Result, ok, raise, int}
use llopster.Api.Trigger.{Form, Fresh, synthesized, effective_lookback}

-- The lookback is the number of the form, and none if the field is blank.
pub data IsLookback (field : Option Text) : Option ℤ → Type 0 where
  blank : is_empty (strip (or_empty field)) ≡ true → IsLookback field none
  number :
      {n : ℤ}
      → is_empty (strip (or_empty field)) ≡ false
      → int (strip (or_empty field)) ≡ ok n
      → IsLookback field (some n)

-- The alert is made of the form.
pub record IsSynthesized (fresh : Fresh) (form : Form) (alert : ParsedAlert) : Type 0 where
  pub named : is_empty alert.service ≡ false
  pub titled : is_empty alert.alertname ≡ false
  pub service : alert.service ≡ or_empty form.service
  pub alertname : alert.alertname ≡ or_empty form.alertname
  pub severity : is_empty (or_empty form.severity) ≡ false → alert.severity ≡ or_empty form.severity
  pub warning : is_empty (or_empty form.severity) ≡ true → alert.severity ≡ lit "warning"
  pub summary : alert.summary ≡ or_empty form.summary
  pub description : alert.description ≡ or_empty form.description
  pub fingerprint : alert.fingerprint ≡ fresh.fingerprint
  pub firing : alert.status ≡ lit "firing"
  pub starts_at : alert.starts_at ≡ some fresh.starts_at

-- The alert and the payload that the form asks for: those of the run that is to be replayed, or
-- those made of its fields.
pub data Asked (fresh : Fresh) (form : Form) (db : Db) (alert : ParsedAlert)
    : List RawAlert → Type 0 where
  replayed :
      (run : Run) (alerts : List ParsedAlert)
      → form.mode ≡ lit "replay"
      → get_run (or_empty form.replay_run_id) db ≡ some run
      → parse_alertmanager_payload fresh.fromisoformat run.alert_payload ≡ some alerts
      → pick_alert run.fingerprint alerts ≡ some alert
      → Asked fresh form db alert run.alert_payload
  made :
      form.mode ≡ lit "synthesize"
      → IsSynthesized fresh form alert
      → Asked fresh form db alert (alert_to_payload fresh.isoformat alert ∷ [])

pub effective_lookback-IsLookback :
    (field : Option Text) (lookback : Option ℤ)
    → effective_lookback field ≡ ok lookback
    → IsLookback field lookback
unfolding effective_lookback
effective_lookback-IsLookback field lookback h =
    elim (Bool-cases (is_empty (strip (or_empty field)))) [
      | inl e ↦ subst (IsLookback field) (ok_inj (sym (rw e) ∙ h)) (blank e)
      | inr e ↦ numbered (int (strip (or_empty field))) e refl (sym (rw e) ∙ h)
    ]
  where
    ok_inj : {a b : Option ℤ} → ok a ≡ ok b → a ≡ b
    ok_inj h = cc

    numbered :
        (q : Result ℤ)
        → is_empty (strip (or_empty field)) ≡ false
        → int (strip (or_empty field)) ≡ q
        → to_some q ≡ ok lookback
        → IsLookback field lookback
    numbered (ok n) e i k = subst (IsLookback field) (ok_inj k) (number e i)
    numbered (raise x) e i k = absurd (cc)

pub synthesized-IsSynthesized :
    (fresh : Fresh) (form : Form)
    → is_empty (or_empty form.service) ≡ false
    → is_empty (or_empty form.alertname) ≡ false
    → IsSynthesized fresh form (synthesized fresh form)
unfolding synthesized
synthesized-IsSynthesized fresh form s a = record {
  named = s;
  titled = a;
  service = refl;
  alertname = refl;
  severity = λ e. rw e refl;
  warning = λ e. rw e refl;
  summary = refl;
  description = refl;
  fingerprint = refl;
  firing = refl;
  starts_at = refl;
}
