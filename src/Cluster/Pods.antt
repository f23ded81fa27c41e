-- ===== src/Cluster/Pods.antt =====
-- integrations/kubernetes_client.py: the parsers of pods, nodes and claims. Nothing stands for an
-- exception.
use llopster.Base.{
  ℕ, Option, none, some, List, [], ◌∷◌, ◌++◌, Bool, true, false, ◌&&◌, if◌then◌else◌, leb, map,
  Text, lit, member, is_empty,
}
use llopster.Json.{
  obj, Fields, end, field, lookup, is_truthy, as_dict, dict_or_empty, list_or_empty, text_or_empty,
  text_or_none, dicts,
}
use llopster.Cluster.Redact.{container_lists, redact_pod_spec}
use llopster.Cluster.Objects.{
  Library, ContainerState, Resources, unstarted, PodState, NodeState, PvcState,
}
use llopster.Cluster.Partial.{◌>>=◌, traverse, put}
use llopster.Cluster.Parse.{
  dict_at, parse_conditions, parse_owner_ref, parse_container_status, container_statuses,
}

-- `for container in spec.get(key) or []`, for one container
abbrev add_resources : Fields → List (Text × Resources) → Option (List (Text × Resources))
add_resources container out = do
  name ← text_or_empty (lookup (lit "name") container)
  if is_empty name then some out else (do
    resources ← dict_at (lit "resources") container
    requests ← dict_at (lit "requests") resources
    limits ← dict_at (lit "limits") resources
    some (put name (record { requests = requests; limits = limits }) out))

abbrev add_containers : List Fields → List (Text × Resources) → Option (List (Text × Resources))
add_containers [] out = some out
add_containers (container ∷ rest) out = add_resources container out >>= add_containers rest

abbrev add_lists : Fields → List Text → List (Text × Resources) → Option (List (Text × Resources))
add_lists spec [] out = some out
add_lists spec (key ∷ rest) out = do
  entries ← list_or_empty (lookup key spec)
  next ← add_containers (dicts entries) out
  add_lists spec rest next

unfoldable pub resources_by_container : Fields → Option (List (Text × Resources))
unfolding list_or_empty lookup lit dicts dict_or_empty text_or_empty put
resources_by_container spec = add_lists spec container_lists []

abbrev unseen : List Text → List (Text × Resources) → List ContainerState
unseen seen [] = []
unseen seen ((name, resources) ∷ rest) =
    let others = unseen seen rest in
    if member name seen then others else unstarted name resources ∷ others

abbrev is_full : Fields → Bool
is_full end = false
is_full (field k v fs) = true

-- The redacted spec, if it is asked for and small enough, and whether it was too large.
unfoldable pub spec_of : Library → Bool → ℕ → Fields → Option Fields × Bool
unfolding redact_pod_spec
spec_of library include_spec max_spec_bytes spec =
    if include_spec && is_full spec
    then if leb (library.dumps_length (obj (redact_pod_spec spec))) max_spec_bytes
      then (some (redact_pod_spec spec), false)
      else (none, true)
    else (none, false)

unfoldable pub parse_pod : Library → Bool → ℕ → Fields → Option PodState
unfolding text_or_empty text_or_none list_or_empty lookup lit parse_conditions parse_owner_ref
    parse_container_status container_statuses resources_by_container spec_of dict_or_empty member
parse_pod library include_spec max_spec_bytes object = do
  meta ← dict_at (lit "metadata") object
  spec ← dict_at (lit "spec") object
  status ← dict_at (lit "status") object
  name ← text_or_empty (lookup (lit "name") meta)
  namespace ← text_or_empty (lookup (lit "namespace") meta)
  phase ← text_or_none (lookup (lit "phase") status)
  node_name ← text_or_none (lookup (lit "nodeName") spec)
  conditions ← parse_conditions (lookup (lit "conditions") status)
  references ← list_or_empty (lookup (lit "ownerReferences") meta)
  owners ← traverse (λ r. as_dict r >>= parse_owner_ref) references
  resources ← resources_by_container spec
  started ← traverse (parse_container_status resources) (container_statuses status)
  some (record {
    name = name;
    namespace = namespace;
    phase = phase;
    node_name = node_name;
    conditions = conditions;
    containers = started ++ unseen (map (λ c. c.name) started) resources;
    owner_chain = owners;
    spec = (spec_of library include_spec max_spec_bytes spec).0;
    spec_truncated = (spec_of library include_spec max_spec_bytes spec).1;
  })

unfoldable pub parse_node : Fields → Option NodeState
unfolding text_or_empty lookup lit parse_conditions is_truthy dict_or_empty
parse_node object = do
  meta ← dict_at (lit "metadata") object
  spec ← dict_at (lit "spec") object
  status ← dict_at (lit "status") object
  name ← text_or_empty (lookup (lit "name") meta)
  conditions ← parse_conditions (lookup (lit "conditions") status)
  some (record {
    name = name;
    conditions = conditions;
    unschedulable = is_truthy (lookup (lit "unschedulable") spec);
  })

unfoldable pub parse_pvc : Fields → Option PvcState
unfolding text_or_empty text_or_none lookup lit dict_or_empty
parse_pvc object = do
  meta ← dict_at (lit "metadata") object
  spec ← dict_at (lit "spec") object
  status ← dict_at (lit "status") object
  resources ← dict_at (lit "resources") spec
  requests ← dict_at (lit "requests") resources
  requested ← text_or_none (lookup (lit "storage") requests)
  name ← text_or_empty (lookup (lit "name") meta)
  namespace ← text_or_empty (lookup (lit "namespace") meta)
  phase ← text_or_none (lookup (lit "phase") status)
  storage_class ← text_or_none (lookup (lit "storageClassName") spec)
  volume_name ← text_or_none (lookup (lit "volumeName") spec)
  some (record {
    name = name;
    namespace = namespace;
    phase = phase;
    storage_class = storage_class;
    requested_storage = requested;
    volume_name = volume_name;
  })
