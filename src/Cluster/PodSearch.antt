-- ===== src/Cluster/PodSearch.antt =====
-- agent/cluster_state.py: the pods of an alert. An exception other than those that
-- are caught ends the collection; the state is passed on in place of being changed.
use llopster.Base.{
  ℕ, ◌-◌, Option, none, some, List, [], ◌∷◌, ◌++◌, if◌then◌else◌, ltb, leb, take, length, Text, lit,
  is_empty,
}
use llopster.Alerts.{ParsedAlert}
use llopster.Filter.{GitOpsResourceRef, gitops_ref_from_alert, display}
use llopster.Json.{Json, Fields, as_dict}
use llopster.Cluster.Objects.{Library, OwnerRef, PodState}
use llopster.Cluster.Pods.{parse_pod}
use llopster.Cluster.Labels.{gitops_labels, match_labels, sort_pods}
use llopster.Cluster.Session.{Server, M, pure, lift, handle, ◌>>=◌}
use llopster.Cluster.Client.{get_pod, list_pods, get_namespaced, resolve_owner_chain}
use llopster.Cluster.State.{
  ClusterState, Collector, Labels, Work, note, report, queried, label_of, Workload, workload_labels,
  find_workload,
}

abbrev pub pod_scan_limit : ℕ
pod_scan_limit = 50

-- The labels of the owners that have some.
abbrev pub labelled_owners : List OwnerRef → List (Text × Labels)
labelled_owners [] = []
labelled_owners (o ∷ rest) =
    if is_empty o.gitops_labels
    then labelled_owners rest
    else (o.kind ++ (b'/' ∷ o.name), o.gitops_labels) ∷ labelled_owners rest

abbrev pub add_pod : PodState → Work → Work
add_pod pod w = record {
  state = record w.state { pods = w.state.pods ++ (pod ∷ []) };
  owner_labels = w.owner_labels ++ labelled_owners pod.owner_chain;
}

abbrev pub on_state : (ClusterState → ClusterState) → Work → Work
on_state f w = record w { state = f w.state }

abbrev pub truncation_note : PodState → ClusterState → ClusterState
truncation_note pod state =
    if pod.spec_truncated
    then note
        (lit "pod spec for "
          ++ (pod.name
              ++ (lit " exceeded the size ceiling and was omitted; container states, restart "
                  ++ lit "counts and resources are still below")))
        state
    else state

-- The pod is named, before its owners are looked up.
abbrev pub pod_seen : PodState → Work → Work
pod_seen pod w = on_state (λ state. truncation_note pod (queried (lit "Pod/" ++ pod.name) state)) w

module _ (library : Library) (server : Server) (c : Collector) where
  -- one round of the loop over the pods
  unfoldable pub gather_pod : Text → Fields → Work → M Work
  unfolding parse_pod resolve_owner_chain handle ◌>>=◌ lit
  gather_pod namespace object w = do
    pod ← lift (parse_pod library c.include_pod_spec c.max_pod_spec_bytes object)
    handle (resolve_owner_chain library server namespace object)
        (λ e. pure (
          add_pod pod
            (on_state (report (lit "owner chain lookup failed: " ++ e)) (pod_seen pod w))))
        λ chain. pure (add_pod (record pod { owner_chain = chain }) (pod_seen pod w))

  unfoldable pub gather_pods : Text → List Fields → Work → M Work
  unfolding gather_pod ◌>>=◌
  gather_pods namespace [] w = pure w
  gather_pods namespace (object ∷ rest) w = do
    next ← gather_pod namespace object w
    gather_pods namespace rest next

  abbrev pub omission_note : Workload → Text → ℕ → ClusterState → ClusterState
  omission_note workload name count state =
      if ltb c.max_pods count
      then note
          (workload.kind
            ++ (b' '
                ∷ (name
                    ++ (lit " has "
                        ++ ((if leb pod_scan_limit count then lit "at least " else [])
                            ++ (library.show_nat count
                                ++ (lit " pods; showing the "
                                    ++ (library.show_nat c.max_pods
                                        ++ (lit " least healthy, "
                                            ++ (library.show_nat (count - c.max_pods)
                                                ++ lit " omitted"))))))))))
          state
      else state

  -- The least healthy pods, and what is said of the others.
  unfoldable pub chosen_pods : Workload → Text → List Json → Work → M (List Fields × Work)
  unfolding sort_pods ◌>>=◌ lit
  chosen_pods workload name pods w = do
    sorted ← lift (sort_pods pods)
    pure (take c.max_pods sorted, on_state (omission_note workload name (length sorted)) w)

  -- the workload is there
  unfoldable pub pods_selected : Text → Workload → Text → Fields → Work → M (List Fields × Work)
  unfolding match_labels list_pods chosen_pods handle ◌>>=◌ lit
  pods_selected namespace workload name object w = do
    found ← lift (match_labels library object)
    elim found [
      | none ↦ pure (
        [],
        on_state
            (note (
              workload.kind
              ++ (b' ' ∷ (name ++ lit " has no matchLabels selector; pods not resolved"))))
            w,
      )
      | some selector ↦
          handle (list_pods library server namespace selector pod_scan_limit)
            (λ e. pure ([], on_state (report (lit "pod list failed: " ++ e)) w))
            λ pods. chosen_pods workload name pods w
    ]

  abbrev pub with_labels : Workload → Text → Labels → Work → Work
  with_labels workload name labels w = if is_empty labels then w else record w {
    owner_labels = w.owner_labels ++ ((workload.kind ++ (b'/' ∷ name), labels) ∷ []);
  }

  unfoldable pub pods_of_workload : Text → Workload → Text → Work → M (List Fields × Work)
  unfolding get_namespaced gitops_labels pods_selected handle ◌>>=◌ lit
  pods_of_workload namespace workload name w =
      handle (get_namespaced library server workload.api_version workload.plural namespace name)
        (λ e. pure ([], on_state (report (workload.kind_lower ++ (lit " lookup failed: " ++ e))) w))
        λ found. elim found [
          | none ↦ pure (
            [],
            on_state
                (note (
                  workload.kind
                  ++ (b' ' ∷ (namespace ++ (b'/' ∷ (name ++ lit " no longer exists"))))))
                w,
          )
          | some object ↦ do
            fields ← lift (as_dict object)
            labels ← lift (gitops_labels library fields)
            let seen =
                with_labels workload name labels
                  (on_state (queried (workload.kind ++ (b'/' ∷ name))) w)
            pods_selected namespace workload name fields seen
        ]

  abbrev pub no_pod : Option GitOpsResourceRef → ClusterState → ClusterState
  no_pod none state =
      note (lit "alert names no pod or workload; only namespace-level context collected") state
  no_pod (some ref) state =
      if c.flux
      then state
      else note
          (lit "alert is about "
            ++ (display ref
                ++ (lit ", not a workload; Flux objects are not read by this agent, so its "
                    ++ lit "status conditions are not included")))
          state

  unfoldable pub fetch_pods_via_workload : ParsedAlert → Text → Work → M (List Fields × Work)
  unfolding find_workload pods_of_workload gitops_ref_from_alert lit display
  fetch_pods_via_workload alert namespace w = elim (find_workload alert workload_labels) [
    | none ↦ pure ([], on_state (no_pod (gitops_ref_from_alert alert)) w)
    | some (workload, name) ↦ pods_of_workload namespace workload name w
  ]

  unfoldable pub fetch_named_pod : Text → Text → Work → M Work
  unfolding get_pod gather_pods handle ◌>>=◌ lit
  fetch_named_pod namespace name w =
      handle (get_pod library server namespace name)
        (λ e. pure (on_state (report (lit "pod lookup failed: " ++ e)) w))
        λ found. elim found [
          | none ↦ pure (
              on_state
                (note (
                  lit "pod "
                  ++ (namespace
                      ++ (b'/' ∷ (name ++ lit " no longer exists (replaced or deleted)")))))
                w)
          | some object ↦ do fields ← lift (as_dict object); gather_pods namespace (fields ∷ []) w
        ]

  -- `_fetch_pods`; what it returns is not used.
  unfoldable pub fetch_pods : ParsedAlert → Text → Work → M Work
  unfolding fetch_named_pod fetch_pods_via_workload gather_pods ◌>>=◌ lit
  fetch_pods alert namespace w = elim (label_of alert (lit "pod")) [
    | some name ↦ fetch_named_pod namespace name w
    | none ↦ do
      found ← fetch_pods_via_workload alert namespace w
      gather_pods namespace found.0 found.1
  ]
