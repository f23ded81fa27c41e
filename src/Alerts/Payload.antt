-- ===== src/Alerts/Payload.antt =====
-- agent/alert_handler.py, the parsing of a webhook payload, and agent/processor.py,
-- `alert_to_payload`. A payload is the list under its key "alerts"; one alert of it is a JSON object.
-- Where the schema of the payload has a string, another value counts as a missing one.
use llopster.Base.{
  ℕ, Option, none, some, List, [], ◌∷◌, ◌++◌, ◌||◌, ◌==◌, if◌then◌else◌, is_empty, Text, lit,
  starts_with, text_eq,
}
use llopster.Alerts.{ParsedAlert, get}

pub data Value : Type 0 where
  text : Text → Value
  null : Value
  object : List (Text × Text) → Value

abbrev pub RawAlert : Type 0
RawAlert = List (Text × Value)

abbrev as_text : Option Value → Option Text
as_text (some (text s)) = some s
as_text _ = none

-- `raw.get(key, default)`
unfoldable pub raw_text : RawAlert → Text → Option Text
unfolding get
raw_text raw key = as_text (get key raw)

abbrev as_object : Option Value → List (Text × Text)
as_object (some (object d)) = d
as_object _ = []

-- `raw.get(key, {}) or {}`
unfoldable pub raw_object : RawAlert → Text → List (Text × Text)
unfolding get
raw_object raw key = as_object (get key raw)

abbrev pub with_default : Text → Option Text → Text
with_default default none = default
with_default default (some value) = value

-- `value.replace("Z", "+00:00")`
unfoldable pub replace_z : Text → Text
unfolding lit
replace_z [] = []
replace_z (c ∷ s) = let rest = replace_z s in if c == b'Z' then lit "+00:00" ++ rest else c ∷ rest

abbrev pub then_try : {A B : Type 0} → Option A → (A → Option B) → Option B
then_try none f = none
then_try (some a) f = f a

-- `datetime.fromisoformat` is a parameter, none where it raises.
module _ (fromisoformat : Text → Option ℕ) where
  abbrev pub parse_ts : Option Text → Option (Option ℕ)
  parse_ts none = some none
  parse_ts (some value) =
      if is_empty value || starts_with value (lit "0001-01-01")
      then some none
      else then_try (fromisoformat (replace_z value)) λ at. some (some at)

  unfoldable pub parse_alert : RawAlert → Option ParsedAlert
  unfolding raw_text raw_object get starts_with replace_z
  parse_alert raw =
      let labels = raw_object raw (lit "labels") in
      let annotations = raw_object raw (lit "annotations") in
      then_try (parse_ts (raw_text raw (lit "startsAt"))) λ starts_at.
        then_try (parse_ts (raw_text raw (lit "endsAt"))) λ ends_at. some (record {
          fingerprint = with_default [] (raw_text raw (lit "fingerprint"));
          status = with_default (lit "firing") (raw_text raw (lit "status"));
          alertname = with_default (lit "unknown") (get (lit "alertname") labels);
          severity = with_default (lit "unknown") (get (lit "severity") labels);
          service = with_default (lit "unknown") (get (lit "service") labels);
          summary = with_default [] (get (lit "summary") annotations);
          description = with_default [] (get (lit "description") annotations);
          starts_at = starts_at;
          ends_at = ends_at;
          labels = labels;
          annotations = annotations;
          generator_url = with_default [] (raw_text raw (lit "generatorURL"));
        })

  -- None is an exception that a time raises; no alert of the payload is returned then.
  unfoldable pub parse_alertmanager_payload : List RawAlert → Option (List ParsedAlert)
  unfolding parse_alert
  parse_alertmanager_payload [] = some []
  parse_alertmanager_payload (raw ∷ payload) =
      then_try (parse_alert raw)
        λ alert. then_try (parse_alertmanager_payload payload) λ alerts. some (alert ∷ alerts)

abbrev instant : (ℕ → Text) → Option ℕ → Value
instant isoformat none = null
instant isoformat (some at) = text (isoformat at)

-- `datetime.isoformat` is a parameter.
unfoldable pub alert_to_payload : (ℕ → Text) → ParsedAlert → RawAlert
alert_to_payload isoformat alert =
    (lit "fingerprint", text alert.fingerprint)
    ∷ (lit "status", text alert.status)
    ∷ (lit "alertname", text alert.alertname)
    ∷ (lit "severity", text alert.severity)
    ∷ (lit "service", text alert.service)
    ∷ (lit "summary", text alert.summary)
    ∷ (lit "description", text alert.description)
    ∷ (lit "starts_at", instant isoformat alert.starts_at)
    ∷ (lit "ends_at", instant isoformat alert.ends_at)
    ∷ (lit "labels", object alert.labels)
    ∷ (lit "annotations", object alert.annotations)
    ∷ (lit "generator_url", text alert.generator_url)
    ∷ []

-- The first alert with the fingerprint, else the first of all, as a run's stored payload is read
-- again by api/trigger_routes.py.
unfoldable pub with_fingerprint : Text → List ParsedAlert → Option ParsedAlert
unfolding text_eq
with_fingerprint fingerprint [] = none
with_fingerprint fingerprint (alert ∷ alerts) =
    if text_eq alert.fingerprint fingerprint
    then some alert
    else with_fingerprint fingerprint alerts

abbrev pub head_of : List ParsedAlert → Option ParsedAlert
head_of [] = none
head_of (alert ∷ alerts) = some alert

unfoldable pub pick_alert : Text → List ParsedAlert → Option ParsedAlert
unfolding with_fingerprint
pick_alert fingerprint alerts = elim (with_fingerprint fingerprint alerts) [
  | none ↦ head_of alerts
  | some alert ↦ some alert
]
