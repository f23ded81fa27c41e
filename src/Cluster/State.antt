-- ===== src/Cluster/State.antt =====
-- agent/cluster_state.py: what the collector gathers, and its choices that ask nothing of the API
-- server. Of the limits of the configuration none is negative.
use llopster.Base.{
  ℕ, Option, none, some, List, [], ◌∷◌, ◌++◌, Bool, ◌||◌, if◌then◌else◌, Text, lit, member,
  is_empty, partition,
}
use llopster.Alerts.{ParsedAlert, alert_label, or_none}
use llopster.Cluster.Objects.{
  OwnerRef, PodState, NodeState, PvcState, ClusterEvent, FluxObjectState,
}

pub record GitOpsState : Type 0 where
  pub resolved_from : Text
  pub objects : List FluxObjectState
  pub events : List ClusterEvent

pub record ClusterState : Type 0 where
  pub namespace : Option Text
  pub pods : List PodState
  pub events : List ClusterEvent
  pub nodes : List NodeState
  pub pvcs : List PvcState
  pub objects_queried : List Text
  pub notes : List Text
  pub errors : List Text
  pub gitops : Option GitOpsState

abbrev pub nothing_yet : ClusterState
nothing_yet = record {
  namespace = none;
  pods = [];
  events = [];
  nodes = [];
  pvcs = [];
  objects_queried = [];
  notes = [];
  errors = [];
  gitops = none;
}

pub record Collector : Type 0 where
  pub namespaces : List Text
  pub all_namespaces : Bool
  pub max_events : ℕ
  pub include_pod_spec : Bool
  pub max_pod_spec_bytes : ℕ
  pub max_pods : ℕ
  -- whether there is a client of Flux
  pub flux : Bool
  pub flux_namespaces : List Text

abbrev pub Labels : Type 0
Labels = List (Text × Text)

-- The state, and the ownership labels found along the way.
pub record Work : Type 0 where
  pub state : ClusterState
  pub owner_labels : List (Text × Labels)

abbrev pub note : Text → ClusterState → ClusterState
note text state = record state { notes = state.notes ++ (text ∷ []) }

abbrev pub report : Text → ClusterState → ClusterState
report text state = record state { errors = state.errors ++ (text ∷ []) }

abbrev pub queried : Text → ClusterState → ClusterState
queried text state = record state { objects_queried = state.objects_queried ++ (text ∷ []) }

-- The label, if it has a value.
abbrev pub label_of : ParsedAlert → Text → Option Text
label_of alert name = or_none (alert_label alert name)

unfoldable pub in_scope : Collector → Text → Bool
unfolding member
in_scope c namespace = c.all_namespaces || member namespace c.namespaces

unfoldable pub flux_in_scope : Collector → Text → Bool
unfolding member
flux_in_scope c namespace =
    c.all_namespaces || member namespace c.namespaces || member namespace c.flux_namespaces

pub record Workload : Type 0 where
  pub kind : Text
  pub kind_lower : Text
  pub api_version : Text
  pub plural : Text

abbrev pub workload_labels : List (Text × Workload)
workload_labels =
    (
      lit "deployment",
      record {
        kind = lit "Deployment";
        kind_lower = lit "deployment";
        api_version = lit "apps/v1";
        plural = lit "deployments";
      },
    )
    ∷ (
      lit "statefulset",
      record {
        kind = lit "StatefulSet";
        kind_lower = lit "statefulset";
        api_version = lit "apps/v1";
        plural = lit "statefulsets";
      },
    )
    ∷ (
      lit "daemonset",
      record {
        kind = lit "DaemonSet";
        kind_lower = lit "daemonset";
        api_version = lit "apps/v1";
        plural = lit "daemonsets";
      },
    )
    ∷ (
      lit "job_name",
      record {
        kind = lit "Job";
        kind_lower = lit "job";
        api_version = lit "batch/v1";
        plural = lit "jobs";
      },
    )
    ∷ []

-- The first of the labels that the alert has, and its value.
unfoldable pub find_workload : ParsedAlert → List (Text × Workload) → Option (Workload × Text)
unfolding alert_label
find_workload alert [] = none
find_workload alert ((label, workload) ∷ rest) =
    let others = find_workload alert rest in
    elim (label_of alert label) [ some name ↦ some (workload, name) | none ↦ others ]

abbrev add_name : Text → List Text → List Text
add_name name names = if is_empty name || member name names then names else names ++ (name ∷ [])

abbrev add_owners : List OwnerRef → List Text → List Text
add_owners [] names = names
add_owners (owner ∷ rest) names = add_owners rest (add_name owner.name names)

abbrev add_pods : List PodState → List Text → List Text
add_pods [] names = names
add_pods (pod ∷ rest) names = add_pods rest (add_owners pod.owner_chain (add_name pod.name names))

abbrev add_queried : List Text → List Text → List Text
add_queried [] names = names
add_queried (entry ∷ rest) names = add_queried rest (add_name (partition b'/' entry).1 names)

-- `_event_sources`; its second argument is not used.
unfoldable pub event_sources : ClusterState → List Text
unfolding member partition
event_sources state =
    if is_empty (add_pods state.pods [])
    then add_queried state.objects_queried []
    else add_pods state.pods []
