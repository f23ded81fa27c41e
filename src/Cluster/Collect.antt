-- ===== src/Cluster/Collect.antt =====
-- agent/cluster_state.py: `ClusterStateCollector.collect`.
use llopster.Base.{none, some, [], ◌++◌, ◌&&◌, if◌then◌else◌, Text, lit, is_some}
use llopster.Alerts.{ParsedAlert, alert_label}
use llopster.Filter.{gitops_ref_from_alert}
use llopster.Cluster.Objects.{Library}
use llopster.Cluster.Session.{Server, M, pure, ◌>>=◌}
use llopster.Cluster.State.{
  ClusterState, nothing_yet, Collector, note, label_of, in_scope, flux_in_scope,
}
use llopster.Cluster.PodSearch.{fetch_pods}
use llopster.Cluster.Evidence.{fetch_events, fetch_pvc, fetch_nodes}
use llopster.Cluster.Delivery.{fetch_gitops}

abbrev pub in_namespace : Text → ClusterState
in_namespace namespace = record nothing_yet { namespace = some namespace }

module _ (library : Library) (server : Server) (c : Collector) where
  -- the alert has no namespace
  unfoldable pub collect_unscoped : ParsedAlert → M ClusterState
  unfolding fetch_nodes lit
  collect_unscoped alert =
      if is_some (label_of alert (lit "node"))
      then fetch_nodes library server c alert nothing_yet
      else pure
          (note (lit "alert carries no namespace label; no cluster objects to look up") nothing_yet)

  -- the namespace is not one of the workloads'
  unfoldable pub collect_outside : ParsedAlert → Text → M ClusterState
  unfolding fetch_gitops flux_in_scope gitops_ref_from_alert lit
  collect_outside alert namespace =
      if is_some (gitops_ref_from_alert alert) && c.flux && flux_in_scope c namespace
      then fetch_gitops library server c alert
          (record { state = in_namespace namespace; owner_labels = [] })
      else pure (
          note
            (lit "namespace "
              ++ (library.repr namespace
                  ++ (lit " is outside the namespaces this agent is permitted to read; no cluster "
                      ++ lit "objects collected")))
            nothing_yet)

  unfoldable pub collect_inside : ParsedAlert → Text → M ClusterState
  unfolding fetch_pods fetch_events fetch_pvc fetch_nodes fetch_gitops ◌>>=◌
  collect_inside alert namespace = do
    w ←
        fetch_pods library server c alert namespace
          (record { state = in_namespace namespace; owner_labels = [] })
    with_events ← fetch_events library server c namespace w.state
    with_claim ← fetch_pvc library server c alert namespace with_events
    with_nodes ← fetch_nodes library server c alert with_claim
    if c.flux
        then fetch_gitops library server c alert (record w { state = with_nodes })
        else pure with_nodes

  unfoldable pub collect : ParsedAlert → M ClusterState
  unfolding collect_unscoped collect_outside collect_inside in_scope alert_label lit
  collect alert = elim (alert_label alert (lit "namespace")) [
    | none ↦ collect_unscoped alert
    | some namespace ↦
        if in_scope c namespace
        then collect_inside alert namespace
        else collect_outside alert namespace
  ]
