-- ===== src/Cluster/Targets.antt =====
-- agent/cluster_state.py: the Flux object that an alert or its workload is about.
use llopster.Base.{
  Option, none, some, List, [], ◌∷◌, ◌++◌, ◌||◌, not, if◌then◌else◌, any, map, Text, lit, member,
  is_empty, is_some, partition, text_eq,
}
use llopster.Alerts.{ParsedAlert, or_none}
use llopster.Filter.{GitOpsResourceRef, gitops_ref_from_alert, display}
use llopster.Cluster.Flux.{find, flux_kinds}
use llopster.Cluster.State.{ClusterState, Labels, Work, workload_labels, note}

pub record Target : Type 0 where
  pub kind : Text
  pub namespace : Text
  pub name : Text
  pub version : Option Text
  pub resolved_from : Text

abbrev pub target_of_ref : GitOpsResourceRef → ClusterState → Option Target × ClusterState
target_of_ref ref state =
    if not (is_some (find ref.kind flux_kinds))
    then (
      none,
      note (lit "alert is about " ++ (display ref ++ lit "; that kind is not one this agent reads"))
          state,
    )
    else elim ref.namespace [
      | none ↦ (
        none,
        note (lit "alert is about " ++ (display ref ++ lit " but names no namespace")) state,
      )
      | some namespace ↦
          if is_empty namespace
          then (
            none,
            note (lit "alert is about " ++ (display ref ++ lit " but names no namespace")) state,
          )
          else (
            some (record {
              kind = ref.kind;
              namespace = namespace;
              name = ref.name;
              version = ref.version;
              resolved_from = lit "alert labels";
            }),
            state,
          )
    ]

-- The object that the two labels name, if both have a value.
abbrev owner_named : Text → Text → Text → Text → Labels → Option Target
owner_named kind name_key namespace_key source labels = elim (or_none (find name_key labels)) [
  | none ↦ none
  | some name ↦ elim (or_none (find namespace_key labels)) [
    | none ↦ none
    | some namespace ↦ some (record {
      kind = kind;
      namespace = namespace;
      name = name;
      version = none;
      resolved_from = source ++ lit " labels";
    })
  ]
]

abbrev pub target_of_labels : List (Text × Labels) → Option Target
target_of_labels [] = none
target_of_labels ((source, labels) ∷ rest) =
    elim (owner_named (lit "HelmRelease") (lit "helm.toolkit.fluxcd.io/name")
      (lit "helm.toolkit.fluxcd.io/namespace") source labels) [
        | some target ↦ some target
        | none ↦
            elim (owner_named (lit "Kustomization") (lit "kustomize.toolkit.fluxcd.io/name")
              (lit "kustomize.toolkit.fluxcd.io/namespace") source labels) [
                | some target ↦ some target
                | none ↦ target_of_labels rest
              ]
      ]

abbrev pub workload_kinds : List Text
workload_kinds = map (λ p. p.1.kind) workload_labels

abbrev pub no_owner : ClusterState → ClusterState
no_owner state =
    if not (is_empty state.pods)
      || any (λ q. member (partition b'/' q).0 workload_kinds) state.objects_queried
    then note
        (lit "no Flux owner found: the workload carries no helm.toolkit.fluxcd.io/ "
          ++ lit "or kustomize.toolkit.fluxcd.io/ ownership labels (not delivered by Flux?)")
        state
    else state

unfoldable pub gitops_target : ParsedAlert → Work → Option Target × ClusterState
unfolding gitops_ref_from_alert find lit display member partition text_eq
gitops_target alert w = elim (gitops_ref_from_alert alert) [
  | some ref ↦ target_of_ref ref w.state
  | none ↦ elim (target_of_labels w.owner_labels) [
    | some target ↦ (some target, w.state)
    | none ↦ (none, no_owner w.state)
  ]
]
