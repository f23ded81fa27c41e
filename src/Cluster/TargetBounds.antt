-- ===== src/Cluster/TargetBounds.antt =====
-- agent/cluster_state.py: what the choice of a Flux object adds to the state.
use llopster.Base.{
  ℕ, ◌||◌, not, any, Bool-cases, Option-cases, inl, inr, member, is_empty, is_some, partition,
}
use llopster.Alerts.{ParsedAlert}
use llopster.Filter.{GitOpsResourceRef, gitops_ref_from_alert}
use llopster.Cluster.Flux.{find, flux_kinds}
use llopster.Cluster.State.{ClusterState, Collector, Work}
use llopster.Cluster.Targets.{
  target_of_ref, target_of_labels, workload_kinds, no_owner, gitops_target,
}
use llopster.Cluster.Bounds.{IsSmall, IsSmall-note_if}

module _ (c : Collector) (n : ℕ) where
  no_owner-IsSmall : (state : ClusterState) → IsSmall c n state → IsSmall c n (no_owner state)
  no_owner-IsSmall state h =
      IsSmall-note_if c n
        (not (is_empty state.pods)
          || any (λ q. member (partition b'/' q).0 workload_kinds) state.objects_queried)
        _ state h

  target_of_ref-IsSmall :
      (ref : GitOpsResourceRef) (state : ClusterState)
      → IsSmall c n state
      → IsSmall c n (target_of_ref ref state).1
  target_of_ref-IsSmall ref state h = elim (Bool-cases (is_some (find ref.kind flux_kinds))) [
    | inr k ↦ rw k h
    | inl k ↦ elim (Option-cases ref.namespace) [
      | inl e ↦ rw (k, e) h
      | inr (ns, e) ↦ elim (Bool-cases (is_empty ns)) [
        | inl f ↦ rw (k, e, f) h
        | inr f ↦ rw (k, e, f) h
      ]
    ]
  ]

  pub gitops_target-IsSmall :
      (alert : ParsedAlert) (w : Work) → IsSmall c n w.state → IsSmall c n (gitops_target alert w).1
  unfolding gitops_target
  gitops_target-IsSmall alert w h = elim (Option-cases (gitops_ref_from_alert alert)) [
    | inr (ref, e) ↦ rw (e, gitops_target) (target_of_ref-IsSmall ref w.state h)
    | inl e ↦
        rw (e, gitops_target)
          (elim (Option-cases (target_of_labels w.owner_labels)) [
            | inr (target, f) ↦ rw f h
            | inl f ↦ rw f (no_owner-IsSmall w.state h)
          ])
  ]
