-- ===== src/Context/Prometheus.antt =====
-- integrations/prometheus_client.py: the parsing of an answer. Floating point numbers are a
-- parameter, with `float`, which gives nothing where it raises a TypeError or ValueError, and the
-- time of a number of seconds. Nothing stands for an exception.
use llopster.Base.{ℕ, Option, none, some, List, [], ◌∷◌, ◌++◌, lit}
use llopster.Json.{
  Json, null, arr, nil, cons, Fields, lookup, as_dict, dict_or_default, list_or_default,
}
use llopster.Cluster.Partial.{◌>>=◌}

pub record MetricSample (Float : Type 0) : Type 0 where
  pub metric : Fields
  pub value : Float
  pub timestamp : ℕ

-- `ts, raw_value = entry.get("value", [None, None])`
abbrev value_pair : Option Json → Option (Json × Json)
value_pair none = some (null, null)
value_pair (some (arr (cons a (cons b nil)))) = some (a, b)
value_pair (some _) = none

module _ {Float : Type 0} (to_float : Json → Option Float) (from_unix : Json → Option ℕ) where
  abbrev sample : Fields → Json → Option Float → Option (List (MetricSample Float))
  sample entry ts none = some []
  sample entry ts (some value) = do
    metric ← dict_or_default (lookup (lit "metric") entry)
    timestamp ← from_unix ts
    some (record { metric = metric; value = value; timestamp = timestamp } ∷ [])

  -- No sample for an entry without a time.
  abbrev samples_of : Fields → Json × Json → Option (List (MetricSample Float))
  samples_of entry (null, raw) = some []
  samples_of entry (ts, raw) = sample entry ts (to_float raw)

  abbrev samples_of_entries : List Json → Option (List (MetricSample Float))
  samples_of_entries [] = some []
  samples_of_entries (v ∷ rest) = do
    entry ← as_dict v
    value ← value_pair (lookup (lit "value") entry)
    samples ← samples_of entry value
    others ← samples_of_entries rest
    some (samples ++ others)

  -- `_parse_instant`
  unfoldable pub parse_instant : Fields → Option (List (MetricSample Float))
  unfolding dict_or_default list_or_default lookup lit
  parse_instant payload = do
    body ← dict_or_default (lookup (lit "data") payload)
    entries ← list_or_default (lookup (lit "result") body)
    samples_of_entries entries
