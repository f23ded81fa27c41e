-- ===== src/Cluster/FluxParse.antt =====
-- integrations/flux_client.py: the projections of Flux objects. Nothing stands for an exception.
use llopster.Base.{
  partition, ℕ, Option, none, some, List, [], ◌∷◌, ◌++◌, Bool, false, ◌||◌, ltb, if◌then◌else◌,
  take, length, Text, lit, text_eq, contains, is_empty,
}
use llopster.Json.{
  Json, str, obj, Fields, end, lookup, truthy, is_truthy, dict_or_empty, list_or_empty,
  text_or_empty, text_or_none, dicts,
}
use llopster.Cluster.Objects.{Library, PodCondition, FluxRef, FluxRelease}
use llopster.Cluster.Partial.{◌>>=◌, traverse, put}
use llopster.Cluster.Parse.{dict_at}
use llopster.Cluster.Labels.{to_str}

abbrev pub max_condition_message : ℕ
max_condition_message = 2000

abbrev shorten : Option Text → Option Text
shorten none = none
shorten (some message) =
    if ltb max_condition_message (length message)
    then some (take max_condition_message message ++ (b' ' ∷ (8230 ∷ lit " [truncated]")))
    else some message

abbrev flux_condition : Fields → Option PodCondition
flux_condition entry = do
  type ← text_or_empty (lookup (lit "type") entry)
  status ← text_or_empty (lookup (lit "status") entry)
  reason ← text_or_none (lookup (lit "reason") entry)
  message ← text_or_none (lookup (lit "message") entry)
  some (record { type = type; status = status; reason = reason; message = shorten message })

unfoldable pub flux_conditions : Option Json → Option (List PodCondition)
unfolding list_or_empty text_or_empty text_or_none lookup lit dicts
flux_conditions raw = do entries ← list_or_empty raw; traverse flux_condition (dicts entries)

-- `_ref`, of a value that is a dict if it is true
unfoldable pub flux_ref : Text → Option Json → Option (Option FluxRef)
unfolding dict_or_empty text_or_empty lookup lit
flux_ref default_namespace value = do
  raw ← dict_or_empty value
  kind ← text_or_empty (lookup (lit "kind") raw)
  name ← text_or_empty (lookup (lit "name") raw)
  namespace ← text_or_empty (lookup (lit "namespace") raw)
  some (
      if is_empty kind || is_empty name
      then none
      else some (record {
        kind = kind;
        namespace = if is_empty namespace then default_namespace else namespace;
        name = name;
      }))

abbrev or_mark : Library → Option Json → Text
or_mark library none = lit "?"
or_mark library (some v) = to_str library v

-- `str(d.get(key))`
abbrev pub shown : Library → Option Json → Text
shown library none = lit "None"
shown library (some v) = to_str library v

unfoldable pub value_ref : Library → Fields → Text
unfolding lookup lit is_truthy
value_ref library raw =
    or_mark library (lookup (lit "kind") raw)
    ++ (b'/'
        ∷ (or_mark library (lookup (lit "name") raw)
            ++ ((if is_truthy (lookup (lit "valuesKey") raw)
                  then lit " (key " ++ (shown library (lookup (lit "valuesKey") raw) ++ lit ")")
                  else [])
                ++ (if is_truthy (lookup (lit "optional") raw) then lit " [optional]" else []))))

abbrev pub value_refs : Library → List Fields → List Text
value_refs library [] = []
value_refs library (raw ∷ rest) = value_ref library raw ∷ value_refs library rest

-- `for key in keys: if d.get(key): facts[prefix + key] = str(d[key])`
unfoldable pub add_facts :
    Library → Text → List Text → Fields → List (Text × Text) → List (Text × Text)
unfolding lookup is_truthy put
add_facts library prefix [] fs facts = facts
add_facts library prefix (key ∷ rest) fs facts = add_facts library prefix rest fs (
    if is_truthy (lookup key fs)
    then put (prefix ++ key) (shown library (lookup key fs)) facts
    else facts)

-- What a parser fills in.
pub record Projection : Type 0 where
  pub applied_revision : Option Text
  pub attempted_revision : Option Text
  pub source : Option FluxRef
  pub facts : List (Text × Text)
  pub releases : List FluxRelease
  pub value_refs : List Text

abbrev pub release : Fields → Option FluxRelease
release h = do
  chart_version ← text_or_none (lookup (lit "chartVersion") h)
  app_version ← text_or_none (lookup (lit "appVersion") h)
  status ← text_or_none (lookup (lit "status") h)
  last_deployed ← text_or_none (lookup (lit "lastDeployed") h)
  some (record {
    chart_version = chart_version;
    app_version = app_version;
    status = status;
    last_deployed = last_deployed;
  })

abbrev is_text : Option Json → Text → Bool
is_text (some (str s)) t = text_eq s t
is_text _ t = false

-- `next((h for h in history if h.get("status") == "deployed"), None) or {}`
abbrev pub deployed : List Fields → Fields
deployed [] = end
deployed (h ∷ rest) =
    if is_text (lookup (lit "status") h) (lit "deployed") then h else deployed rest

abbrev pub if_true : Option Json → Option Json → Option Json
if_true a b = if is_truthy a then a else b

abbrev pub Chart : Type 0
Chart = Option FluxRef × List (Text × Text)

-- the branch of `chart_spec`
abbrev inline_chart : Library → Text → Fields → Fields → Option Chart
inline_chart library ns chart_spec status = do
  helm_chart ← text_or_empty (lookup (lit "helmChart") status)
  reference ← flux_ref ns (lookup (lit "sourceRef") chart_spec)
  source_ref ← dict_at (lit "sourceRef") chart_spec
  let version = if_true (lookup (lit "version") chart_spec) (some (str (lit "*")))
  let facts =
      put (lit "chart")
        (shown library (lookup (lit "chart") chart_spec)
          ++ (lit " (version constraint " ++ (shown library version ++ lit ")")))
        []
  some (
    if contains helm_chart (lit "/")
        then some (record {
          kind = lit "HelmChart";
          namespace = (partition b'/' helm_chart).0;
          name = (partition b'/' helm_chart).1;
        })
        else reference,
    if is_truthy (lookup (lit "sourceRef") chart_spec)
        then put (lit "chart source")
            (shown library (lookup (lit "kind") source_ref)
              ++ (b'/' ∷ shown library (lookup (lit "name") source_ref)))
            facts
        else facts,
  )

-- Where the chart comes from, and what is said of it.
unfoldable pub chart_of : Library → Text → Fields → Fields → Option Chart
unfolding dict_or_empty lookup lit text_or_empty is_truthy flux_ref put contains partition truthy
chart_of library ns spec status = do
  chart_ref ← dict_at (lit "chartRef") spec
  chart ← dict_at (lit "chart") spec
  chart_spec ← dict_at (lit "spec") chart
  reference ← flux_ref ns (lookup (lit "chartRef") spec)
  if is_truthy (some (obj chart_ref))
      then some (
        reference,
        put (lit "chart")
            (lit "chartRef "
              ++ (shown library (lookup (lit "kind") chart_ref)
                  ++ (b'/' ∷ shown library (lookup (lit "name") chart_ref))))
            [],
      )
      else if is_truthy (some (obj chart_spec))
      then inline_chart library ns chart_spec status
      else some (none, [])

-- The preferred version in the answer of the API server about a group.
unfoldable pub served_version : Option Json → Option (Option Text)
unfolding dict_or_empty lookup lit text_or_none
served_version payload = do
  body ← dict_or_empty payload
  preferred ← dict_at (lit "preferredVersion") body
  text_or_none (lookup (lit "version") preferred)
