-- ===== src/Context/Loki.antt =====
-- integrations/loki_client.py: the parsing of an answer. The time of a nanosecond count is a
-- parameter, which fails where `int` or `fromtimestamp` raises. Nothing stands for an exception.
use llopster.Base.{ℕ, Option, none, some, List, [], ◌∷◌, ◌++◌, Text, lit}
use llopster.Base.Newest.{sort_newest}
use llopster.Json.{
  Json, arr, nil, cons, Fields, lookup, as_dict, as_text, dict_or_empty, dict_or_default,
  list_or_default,
}
use llopster.Cluster.Partial.{◌>>=◌, traverse}

pub record LogLine : Type 0 where
  pub timestamp : ℕ
  pub line : Text
  pub labels : Fields

-- `ts_ns, line = value`
abbrev pair : Json → Option (Json × Json)
pair (arr (cons a (cons b nil))) = some (a, b)
pair _ = none

module _ (from_ns : Json → Option ℕ) where
  abbrev log_line : Fields → Json → Option LogLine
  log_line labels value = do
    (ts_ns, line) ← pair value
    timestamp ← from_ns ts_ns
    text ← as_text line
    some (record { timestamp = timestamp; line = text; labels = labels })

  abbrev lines_of_stream : Json → Option (List LogLine)
  lines_of_stream value = do
    stream ← as_dict value
    labels ← dict_or_empty (lookup (lit "stream") stream)
    values ← list_or_default (lookup (lit "values") stream)
    traverse (log_line labels) values

  abbrev lines_of_streams : List Json → Option (List LogLine)
  lines_of_streams [] = some []
  lines_of_streams (stream ∷ rest) = do
    lines ← lines_of_stream stream
    others ← lines_of_streams rest
    some (lines ++ others)

  -- `_parse_query_range`
  unfoldable pub parse_query_range : Fields → Option (List LogLine)
  unfolding dict_or_default list_or_default dict_or_empty lookup lit sort_newest
  parse_query_range payload = do
    body ← dict_or_default (lookup (lit "data") payload)
    streams ← list_or_default (lookup (lit "result") body)
    lines ← lines_of_streams streams
    some (sort_newest (λ (l : LogLine). l.timestamp) lines)
