-- ===== src/Alerts/RoundTrip.antt =====
-- agent/alert_handler.py and agent/processor.py: reading back an alert from a stored payload.
use llopster.Base.{
  ℕ, ◌≡◌, sym, ap, Option, none, some, List, [], ◌∷◌, map, Text, lit, text_eq, text_eq_refl, Has,
  here, there, AreDistinct, member, member_of_Has, eq_of_text_eq, Has-map, ◌∙◌, Bool-cases, inl,
  inr,
}
use mathlib.Core.Bool.{true≢false}
use llopster.Alerts.{ParsedAlert, get}
use llopster.Alerts.Payload.{
  parse_alert, alert_to_payload, pick_alert, with_fingerprint, raw_text, raw_object,
  parse_alertmanager_payload,
}

-- The names of an alert are the values of its labels and annotations, as they are in an alert that
-- was parsed with all of them present and in one that is synthesised.
pub record IsLabelled (alert : ParsedAlert) : Type 0 where
  pub alertname : get (lit "alertname") alert.labels ≡ some alert.alertname
  pub severity : get (lit "severity") alert.labels ≡ some alert.severity
  pub service : get (lit "service") alert.labels ≡ some alert.service
  pub summary : get (lit "summary") alert.annotations ≡ some alert.summary
  pub description : get (lit "description") alert.annotations ≡ some alert.description

-- The payload that is made of an alert parses, whatever its times are, to the alert without its
-- times and its generator URL, provided that its names are those of its labels and annotations.
pub parse-alert_to_payload :
    (fromisoformat : Text → Option ℕ) (isoformat : ℕ → Text) (alert : ParsedAlert)
    → IsLabelled alert
    → parse_alertmanager_payload fromisoformat (alert_to_payload isoformat alert ∷ [])
      ≡ some (record alert { starts_at = none; ends_at = none; generator_url = [] } ∷ [])
unfolding parse_alertmanager_payload parse_alert alert_to_payload raw_text raw_object get lit
    text_eq
parse-alert_to_payload fromisoformat isoformat alert h =
    rw (h.alertname, h.severity, h.service, h.summary, h.description)

-- In a batch whose fingerprints differ each alert is found by its own.
with_fingerprint-Has :
    (alert : ParsedAlert) (alerts : List ParsedAlert)
    → AreDistinct (map (λ a. a.fingerprint) alerts)
    → Has alert alerts
    → with_fingerprint alert.fingerprint alerts ≡ some alert
unfolding with_fingerprint
with_fingerprint-Has alert [] d m = elim m [ ]
with_fingerprint-Has alert (a ∷ alerts) d (here e) = rw (← e, text_eq_refl alert.fingerprint)
with_fingerprint-Has alert (a ∷ alerts) d (there m) =
    elim (Bool-cases (text_eq a.fingerprint alert.fingerprint)) [
      | inl e ↦ absurd (
          true≢false (
            sym (member_of_Has (Has-map (λ a. a.fingerprint) m))
            ∙ ap (λ f. member f (map (λ a. a.fingerprint) alerts)) (sym (eq_of_text_eq _ _ e))
            ∙ d.0))
      | inr e ↦ rw (e, with_fingerprint-Has alert alerts d.1 m)
    ]

pub pick_alert-Has :
    (alert : ParsedAlert) (alerts : List ParsedAlert)
    → AreDistinct (map (λ a. a.fingerprint) alerts)
    → Has alert alerts
    → pick_alert alert.fingerprint alerts ≡ some alert
unfolding pick_alert
pick_alert-Has alert alerts d m = rw (pick_alert, with_fingerprint-Has alert alerts d m)
