-- ===== src/Cluster/PodReads.antt =====
-- agent/cluster_state.py: the requests of the search for pods, and how many it finds.
use llopster.Base.{
  ℕ, ◌≤◌, ◌≡◌, Option, none, some, List, [], ◌∷◌, ◌++◌, true, take, ltb, length, Text, lit,
  is_empty, Bool-cases, Option-cases, inl, inr, arith,
}
use llopster.Alerts.{ParsedAlert}
use llopster.Filter.{GitOpsResourceRef, gitops_ref_from_alert}
use llopster.Json.{Json, Fields, as_dict}
use llopster.Cluster.Objects.{Library}
use llopster.Cluster.Labels.{gitops_labels, match_labels, sort_pods}
use llopster.Cluster.Session.{Server, pure, lift}
use llopster.Cluster.Client.{get_pod, list_pods, get_namespaced}
use llopster.Cluster.State.{
  ClusterState, Collector, Work, Labels, note, report, queried, Workload, workload_labels,
  find_workload, label_of, in_scope,
}
use llopster.Cluster.PodSearch.{
  on_state, chosen_pods, pods_selected, pods_of_workload, fetch_pods_via_workload, fetch_named_pod,
  fetch_pods, omission_note, with_labels, no_pod, pod_scan_limit,
}
use llopster.Cluster.Rules.{Uncaught, Runs, pure-Runs, lift-Runs, bind-Runs, handle-Runs}
use llopster.Cluster.Permitted.{Permitted}
use llopster.Cluster.Reads.{get_pod-Runs, list_pods-Runs}
use llopster.Cluster.OwnerWalk.{workload_get}
use llopster.Cluster.Owners.{IsKind}
use llopster.Cluster.Bounds.{IsSmall, most_pods, length-take-le, IsSmall-le}
use llopster.Cluster.Workloads.{workload_labels-IsKnown, find_workload-IsKnown}
use llopster.Cluster.PodGather.{Small, gather_pods-Runs}

module _ (library : Library) (server : Server) (c : Collector) where
  -- A few pods are found, and none is gathered.
  abbrev Few : ℕ → List Fields × Work → Type 0
  Few n found = (length found.0 ≤ c.max_pods) × Small c n found.1

  IsSmall-omission :
      (workload : Workload) (name : Text) (count : ℕ) (state : ClusterState) (n : ℕ)
      → IsSmall c n state
      → IsSmall c n (omission_note library server c workload name count state)
  IsSmall-omission workload name count state n h = elim (Bool-cases (ltb c.max_pods count)) [
    | inl e ↦ rw e h
    | inr e ↦ rw e h
  ]

  Small-with_labels :
      (workload : Workload) (name : Text) (labels : Labels) (w : Work) (n : ℕ)
      → Small c n w
      → Small c n (
          with_labels library server c workload name labels
            (on_state (queried (workload.kind ++ (b'/' ∷ name))) w))
  Small-with_labels workload name labels w n h = elim (Bool-cases (is_empty labels)) [
    | inl e ↦ rw e h
    | inr e ↦ rw e h
  ]

  chosen_pods-Runs :
      (workload : Workload) (name : Text) (pods : List Json) (w : Work) (n : ℕ)
      → Small c n w
      → Runs
          (Permitted library server c)
          Uncaught
          (Few n)
          (chosen_pods library server c workload name pods w)
  unfolding chosen_pods
  chosen_pods-Runs workload name pods w n h =
      bind-Runs (Permitted library server c) Uncaught _ _ (lift (sort_pods pods)) _
        (lift-Runs (Permitted library server c) Uncaught tt (sort_pods pods))
        λ sorted q.
          let omitted = omission_note library server c workload name (length sorted) in
          pure-Runs (Permitted library server c) Uncaught _
            (take c.max_pods sorted, on_state omitted w)
            (
              length-take-le c.max_pods sorted,
              IsSmall-omission workload name (length sorted) w.state n h,
            )

  -- Nothing is found.
  none_found :
      (f : ClusterState → ClusterState) (w : Work) (n : ℕ)
      → IsSmall c n (f w.state)
      → Runs (Permitted library server c) Uncaught (Few n) (pure ([], on_state f w))
  none_found f w n h =
      pure-Runs (Permitted library server c) Uncaught _ ([], on_state f w) (omega arith, h)

  pods_selected-Runs :
      (ns : Text) (workload : Workload) (name : Text) (object : Fields) (w : Work) (n : ℕ)
      → in_scope c ns ≡ true
      → Small c n w
      → Runs
          (Permitted library server c)
          Uncaught
          (Few n)
          (pods_selected library server c ns workload name object w)
  unfolding pods_selected
  pods_selected-Runs ns workload name object w n i h =
      bind-Runs (Permitted library server c) Uncaught _ _ (lift (match_labels library object)) _
        (lift-Runs (Permitted library server c) Uncaught tt (match_labels library object))
        λ found q. elim (Option-cases found) [
          | inl e ↦ rw e (none_found (note _) w n h)
          | inr (selector, e) ↦ rw e (
              handle-Runs (Permitted library server c) Uncaught _ _ tt
                (list_pods library server ns selector pod_scan_limit) _ _
                (list_pods-Runs library server c ns selector pod_scan_limit i)
                (λ e. none_found (report _) w n h)
                λ pods q. chosen_pods-Runs workload name pods w n h)
        ]

  pods_of_workload-Runs :
      (ns : Text) (workload : Workload) (name : Text) (w : Work) (n : ℕ)
      → IsKind workload.api_version workload.plural
      → in_scope c ns ≡ true
      → Small c n w
      → Runs
          (Permitted library server c)
          Uncaught
          (Few n)
          (pods_of_workload library server c ns workload name w)
  unfolding pods_of_workload
  pods_of_workload-Runs ns workload name w n k i h =
      handle-Runs (Permitted library server c) Uncaught _ _ tt
        (get_namespaced library server workload.api_version workload.plural ns name) _ _
        (workload_get library server c workload.api_version workload.plural ns name k i)
        (λ e. none_found (report _) w n h)
        λ found q. elim (Option-cases found) [
          | inl e ↦ rw e (none_found (note _) w n h)
          | inr (object, e) ↦ rw e (
              bind-Runs (Permitted library server c) Uncaught _ _ (lift (as_dict object)) _
                (lift-Runs (Permitted library server c) Uncaught tt (as_dict object))
                λ fields q.
                  bind-Runs (Permitted library server c) Uncaught _ _
                    (lift (gitops_labels library fields)) _
                    (lift-Runs (Permitted library server c) Uncaught tt
                      (gitops_labels library fields))
                    λ labels q.
                      pods_selected-Runs ns workload name fields _ n i
                        (Small-with_labels workload name labels w n h))
        ]

  no_pod-IsSmall :
      (ref : Option GitOpsResourceRef) (state : ClusterState) (n : ℕ)
      → IsSmall c n state
      → IsSmall c n (no_pod library server c ref state)
  no_pod-IsSmall none state n h = h
  no_pod-IsSmall (some ref) state n h = elim (Bool-cases c.flux) [ inl e ↦ rw e h | inr e ↦ rw e h ]

  fetch_via_workload-Runs :
      (alert : ParsedAlert) (ns : Text) (w : Work) (n : ℕ)
      → in_scope c ns ≡ true
      → Small c n w
      → Runs
          (Permitted library server c)
          Uncaught
          (Few n)
          (fetch_pods_via_workload library server c alert ns w)
  unfolding fetch_pods_via_workload
  fetch_via_workload-Runs alert ns w n i h =
      elim (Option-cases (find_workload alert workload_labels)) [
        | inl e ↦
            rw (e, fetch_pods_via_workload)
              (none_found (no_pod library server c (gitops_ref_from_alert alert)) w n
                (no_pod-IsSmall (gitops_ref_from_alert alert) w.state n h))
        | inr ((workload, name), e) ↦
            rw (e, fetch_pods_via_workload)
              (pods_of_workload-Runs ns workload name w n
                (find_workload-IsKnown alert workload name workload_labels workload_labels-IsKnown
                  e)
                i h)
      ]

  fetch_named_pod-Runs :
      (ns name : Text) (w : Work)
      → in_scope c ns ≡ true
      → Small c 0 w
      → Runs
          (Permitted library server c)
          Uncaught
          (Small c (most_pods c))
          (fetch_named_pod library server c ns name w)
  unfolding fetch_named_pod
  fetch_named_pod-Runs ns name w i h =
      handle-Runs (Permitted library server c) Uncaught _ _ tt (get_pod library server ns name) _ _
        (get_pod-Runs library server c ns name i)
        (λ e.
          pure-Runs (Permitted library server c) Uncaught _ (on_state (report _) w)
            (any_pods w.state h))
        λ found q. elim (Option-cases found) [
          | inl e ↦ rw e (
              pure-Runs (Permitted library server c) Uncaught _ (on_state (note _) w)
                (any_pods w.state h))
          | inr (object, e) ↦ rw e (
              bind-Runs (Permitted library server c) Uncaught _ _ (lift (as_dict object)) _
                (lift-Runs (Permitted library server c) Uncaught tt (as_dict object))
                λ fields q.
                  gather_pods-Runs library server c ns (fields ∷ []) w 0 (most_pods c) i
                    (omega arith) h)
        ]
    where
      any_pods : (state : ClusterState) → IsSmall c 0 state → IsSmall c (most_pods c) state
      any_pods state h = IsSmall-le c 0 (most_pods c) state (omega arith) h

  -- The pods of an alert: one that it names, or a few of its workload.
  pub fetch_pods-Runs :
      (alert : ParsedAlert) (ns : Text) (w : Work)
      → in_scope c ns ≡ true
      → Small c 0 w
      → Runs
          (Permitted library server c)
          Uncaught
          (Small c (most_pods c))
          (fetch_pods library server c alert ns w)
  unfolding fetch_pods
  fetch_pods-Runs alert ns w i h = elim (Option-cases (label_of alert (lit "pod"))) [
    | inr (name, e) ↦ rw (e, fetch_pods) (fetch_named_pod-Runs ns name w i h)
    | inl e ↦
        rw (e, fetch_pods)
          (bind-Runs (Permitted library server c) Uncaught (Few 0) _
            (fetch_pods_via_workload library server c alert ns w) _
            (fetch_via_workload-Runs alert ns w 0 i h)
            λ found q.
              gather_pods-Runs library server c ns found.0 found.1 0 (most_pods c) i
                (let few = q.0 in omega arith) q.1)
  ]
