-- ===== src/Cluster/Events.antt =====
-- integrations/kubernetes_client.py: the events of an object, newest first.
use llopster.Base.{
  ℕ, Option, none, some, List, [], ◌∷◌, ◌++◌, if◌then◌else◌, ◌==◌, Text, lit, is_empty,
}
use llopster.Base.Int.{pos}
use llopster.Base.Newest.{sort_newest}
use llopster.Json.{
  Json, null, str, Fields, lookup, list_or_empty, dict_or_empty, text_or_none, int_or, dicts,
}
use llopster.Cluster.Objects.{Library, ClusterEvent}
use llopster.Cluster.Partial.{◌>>=◌, traverse}
use llopster.Cluster.Parse.{dict_at}

-- `raw.replace("Z", "+00:00")`
abbrev replace_z : Text → Text
replace_z [] = []
replace_z (c ∷ s) = if c == b'Z' then lit "+00:00" ++ replace_z s else c ∷ replace_z s

abbrev parse_ts : Library → Option Json → Option ℕ
parse_ts library (some (str raw)) =
    if is_empty raw then none else library.fromisoformat (replace_z raw)
parse_ts library _ = none

abbrev or_else : Option ℕ → Option ℕ → Option ℕ
or_else none o = o
or_else (some at) o = some at

unfoldable pub event_timestamp : Library → Fields → Option (Option ℕ)
unfolding dict_or_empty lookup lit
event_timestamp library item = do
  series ← dict_at (lit "series") item
  some (
      or_else (parse_ts library (lookup (lit "lastTimestamp") item)) (
        or_else (parse_ts library (lookup (lit "lastObservedTime") series)) (
          or_else (parse_ts library (lookup (lit "eventTime") item))
            (parse_ts library (lookup (lit "firstTimestamp") item)))))

-- `d.get(key, "?")` inside a formatted text
abbrev text_or_mark : Option Json → Option Text
text_or_mark none = some (lit "?")
text_or_mark (some null) = some (lit "None")
text_or_mark (some (str s)) = some s
text_or_mark (some _) = none

unfoldable pub parse_event : Library → Fields → Option ClusterEvent
unfolding dict_or_empty lookup lit text_or_none int_or event_timestamp
parse_event library item = do
  involved ← dict_at (lit "involvedObject") item
  kind ← text_or_mark (lookup (lit "kind") involved)
  name ← text_or_mark (lookup (lit "name") involved)
  type ← text_or_none (lookup (lit "type") item)
  reason ← text_or_none (lookup (lit "reason") item)
  message ← text_or_none (lookup (lit "message") item)
  count ← int_or (pos 1) (lookup (lit "count") item)
  timestamp ← event_timestamp library item
  some (record {
    involved_object = kind ++ (b'/' ∷ name);
    type = type;
    reason = reason;
    message = message;
    count = count;
    last_timestamp = timestamp;
  })

-- `e.last_timestamp or epoch`
abbrev pub instant : ClusterEvent → ℕ
instant event = elim event.last_timestamp [ none ↦ 0 | some at ↦ at ]

-- `sorted(events, key=…, reverse=True)`
unfoldable pub sort_events : List ClusterEvent → List ClusterEvent
unfolding sort_newest
sort_events events = sort_newest instant events

unfoldable pub parse_events : Library → Fields → Option (List ClusterEvent)
unfolding list_or_empty lookup lit dicts parse_event sort_events
parse_events library payload = do
  items ← list_or_empty (lookup (lit "items") payload)
  events ← traverse (parse_event library) (dicts items)
  some (sort_events events)
