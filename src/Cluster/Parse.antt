-- ===== src/Cluster/Parse.antt =====
-- integrations/kubernetes_client.py: the parsers. Nothing stands for an exception.
use llopster.Base.{
  Option, none, some, List, [], ◌∷◌, ◌++◌, Bool, true, false, ◌&&◌, if◌then◌else◌, Text, lit,
  text_eq,
}
use llopster.Base.Int.{ℤ, pos}
use llopster.Json.{
  Json, null, num, arr, obj, Fields, end, lookup, is_truthy, to_list, dict_or_empty, list_or_empty,
  text_or_empty, text_or_none, int_or, dicts,
}
use llopster.Cluster.Objects.{OwnerRef, PodCondition, ContainerState, Resources}
use llopster.Cluster.Partial.{◌>>=◌, traverse}

-- `d.get(key) or {}`
abbrev pub dict_at : Text → Fields → Option Fields
dict_at key fs = dict_or_empty (lookup key fs)

abbrev condition : Fields → Option PodCondition
condition entry = do
  type ← text_or_empty (lookup (lit "type") entry)
  status ← text_or_empty (lookup (lit "status") entry)
  reason ← text_or_none (lookup (lit "reason") entry)
  message ← text_or_none (lookup (lit "message") entry)
  some (record { type = type; status = status; reason = reason; message = message })

unfoldable pub parse_conditions : Option Json → Option (List PodCondition)
unfolding list_or_empty text_or_empty text_or_none lookup lit dicts
parse_conditions raw = do entries ← list_or_empty raw; traverse condition (dicts entries)

-- The API version, kind and plural of the owners that are fetched.
abbrev pub owner_kinds : List (Text × Text × Text)
owner_kinds =
    (lit "apps/v1", lit "ReplicaSet", lit "replicasets")
    ∷ (lit "apps/v1", lit "Deployment", lit "deployments")
    ∷ (lit "apps/v1", lit "StatefulSet", lit "statefulsets")
    ∷ (lit "apps/v1", lit "DaemonSet", lit "daemonsets")
    ∷ (lit "batch/v1", lit "Job", lit "jobs")
    ∷ (lit "batch/v1", lit "CronJob", lit "cronjobs")
    ∷ []

abbrev pub find_plural : Text → Text → List (Text × Text × Text) → Option Text
find_plural api_version kind [] = none
find_plural api_version kind ((v, k, plural) ∷ rest) =
    if text_eq v api_version && text_eq k kind
    then some plural
    else find_plural api_version kind rest

-- `OWNER_KINDS.get((api_version, kind))`
unfoldable pub owner_plural : Text → Text → Option Text
unfolding text_eq lit
owner_plural api_version kind = find_plural api_version kind owner_kinds

abbrev pub has_value {ℓ} : {A : Type ℓ} → Option A → Bool
has_value none = false
has_value (some a) = true

unfoldable pub parse_owner_ref : Fields → Option OwnerRef
unfolding text_or_empty lookup lit owner_plural
parse_owner_ref raw = do
  kind ← text_or_empty (lookup (lit "kind") raw)
  api_version ← text_or_empty (lookup (lit "apiVersion") raw)
  name ← text_or_empty (lookup (lit "name") raw)
  some (record {
    kind = kind;
    name = name;
    resolved = has_value (owner_plural api_version kind);
    gitops_labels = [];
  })

-- A ContainerState is a union rendered as a map with one key.
abbrev first_body : Fields → List Text → Option Text × Fields
first_body state [] = (none, end)
first_body state (kind ∷ kinds) = elim (lookup kind state) [
  | some (obj body) ↦ (some kind, body)
  | _ ↦ first_body state kinds
]

unfoldable pub first_state : Option Json → Option Text × Fields
unfolding lookup lit
first_state (some (obj state)) =
    first_body state (lit "waiting" ∷ lit "terminated" ∷ lit "running" ∷ [])
first_state _ = (none, end)

-- `int(value) if value is not None else None`
unfoldable pub int_or_none : Option Json → Option (Option ℤ)
int_or_none none = some none
int_or_none (some null) = some none
int_or_none (some (num n)) = some (some n)
int_or_none (some _) = none

abbrev find_resources : Text → List (Text × Resources) → Resources
find_resources name [] = record { requests = end; limits = end }
find_resources name ((n, r) ∷ rest) = if text_eq n name then r else find_resources name rest

unfoldable pub parse_container_status : List (Text × Resources) → Fields → Option ContainerState
unfolding text_or_empty text_or_none lookup lit first_state int_or int_or_none text_eq is_truthy
parse_container_status resources raw = do
  name ← text_or_empty (lookup (lit "name") raw)
  image ← text_or_none (lookup (lit "image") raw)
  restarts ← int_or (pos 0) (lookup (lit "restartCount") raw)
  let found = find_resources name resources
  let now = first_state (lookup (lit "state") raw)
  reason ← text_or_none (lookup (lit "reason") now.1)
  message ← text_or_none (lookup (lit "message") now.1)
  let last = first_state (lookup (lit "lastState") raw)
  last_reason ← text_or_none (lookup (lit "reason") last.1)
  exit_code ← int_or_none (lookup (lit "exitCode") last.1)
  signal ← int_or_none (lookup (lit "signal") last.1)
  finished_at ← text_or_none (lookup (lit "finishedAt") last.1)
  some (record {
    name = name;
    image = image;
    ready = is_truthy (lookup (lit "ready") raw);
    restart_count = restarts;
    state = now.0;
    state_reason = reason;
    state_message = message;
    last_state = last.0;
    last_state_reason = last_reason;
    last_state_exit_code = exit_code;
    last_state_signal = signal;
    last_state_finished_at = finished_at;
    requests = found.requests;
    limits = found.limits;
  })

abbrev list_items : Option Json → List Json
list_items (some (arr vs)) = to_list vs
list_items _ = []

abbrev status_keys : List Text
status_keys =
    lit "initContainerStatuses" ∷ lit "containerStatuses" ∷ lit "ephemeralContainerStatuses" ∷ []

abbrev statuses_at : Fields → List Text → List Fields
statuses_at status [] = []
statuses_at status (key ∷ rest) = dicts (list_items (lookup key status)) ++ statuses_at status rest

unfoldable pub container_statuses : Fields → List Fields
unfolding lookup lit dicts
container_statuses status = statuses_at status status_keys
