-- ===== src/Alerts.antt =====
-- agent/alert_handler.py: the normalised alert. A dict of labels is an association list, the first
-- entry of a key being its value; an instant is a number of microseconds since year 1 (UTC).
pub mod Payload
pub mod RoundTrip
use llopster.Base.{
  ℕ, Option, none, some, List, [], ◌∷◌, ◌++◌, if◌then◌else◌, is_empty, Text, lit, text_eq, strip,
  lower,
}

pub record ParsedAlert : Type 0 where
  pub fingerprint : Text
  pub status : Text
  pub alertname : Text
  pub severity : Text
  pub service : Text
  pub summary : Text
  pub description : Text
  pub starts_at : Option ℕ
  pub ends_at : Option ℕ
  pub labels : List (Text × Text)
  pub annotations : List (Text × Text)
  pub generator_url : Text

-- `d.get(key)`
unfoldable pub get {ℓ} : {A : Type ℓ} → Text → List (Text × A) → Option A
get key [] = none
get key ((k, v) ∷ rest) = if text_eq k key then some v else get key rest

-- `value or ""`
abbrev pub or_empty : Option Text → Text
or_empty none = []
or_empty (some value) = value

-- `value or None`
abbrev pub or_none : Option Text → Option Text
or_none none = none
or_none (some value) = if is_empty value then none else some value

-- `_TARGET_IDENTITY_LABELS` holds "pod" alone.
unfoldable pub alert_label : ParsedAlert → Text → Option Text
unfolding get
alert_label alert name =
    if is_empty (or_empty (get (lit "exported_" ++ name) alert.labels))
    then if text_eq name (lit "pod")
      then if is_empty (or_empty (get (lit "exported_namespace") alert.labels))
        then or_none (get name alert.labels)
        else none
      else or_none (get name alert.labels)
    else get (lit "exported_" ++ name) alert.labels

-- `(value or "unknown").strip().lower()`, as agent/dedup.py forms each part of its key
unfoldable pub key_part : Text → Text
key_part value = lower (strip (if is_empty value then lit "unknown" else value))

-- agent/dedup.py, `compute_dedup_key`
unfoldable pub compute_dedup_key : ParsedAlert → Text
unfolding key_part
compute_dedup_key alert =
    key_part alert.alertname ++ (58 ∷ (key_part alert.service ++ (58 ∷ key_part alert.severity)))
