-- ===== src/Cluster/Scope.antt =====
-- agent/cluster_state.py: what `collect` reads, what it raises and how much it returns.
use llopster.Base.{
  ◌≡◌, [], true, ◌&&◌, if◌then◌else◌, Text, lit, is_some, arith, Option-cases, inl, inr,
}
use llopster.Alerts.{ParsedAlert, alert_label}
use llopster.Filter.{gitops_ref_from_alert}
use llopster.Cluster.Objects.{Library}
use llopster.Cluster.Session.{Server, Session}
use llopster.Cluster.State.{
  ClusterState, nothing_yet, Collector, Work, note, label_of, in_scope, flux_in_scope,
}
use llopster.Cluster.PodSearch.{fetch_pods}
use llopster.Cluster.Evidence.{fetch_events, fetch_pvc, fetch_nodes}
use llopster.Cluster.Collect.{
  in_namespace, collect_unscoped, collect_outside, collect_inside, collect,
}
use llopster.Cluster.Rules.{Uncaught, Runs, pure-Runs, bind-Runs, if-Runs}
use llopster.Cluster.Permitted.{Permitted}
use llopster.Cluster.Answers.{IsFaithful}
use llopster.Cluster.Bounds.{IsSmall, most_pods}
use llopster.Cluster.PodReads.{fetch_pods-Runs}
use llopster.Cluster.EvidenceReads.{fetch_events-Runs, fetch_pvc-Runs, fetch_nodes-Runs}
use llopster.Cluster.DeliveryReads.{fetch_gitops-Runs}

module _ (library : Library) (server : Server) (c : Collector)
    (faithful : IsFaithful c server) where
  abbrev Small : ClusterState → Type 0
  Small = IsSmall c (most_pods c)

  abbrev SmallWork : Work → Type 0
  SmallWork w = Small w.state

  Small-start : (namespace : Text) → Small (in_namespace namespace)
  Small-start namespace = (omega arith, omega arith, tt)

  collect_unscoped-Runs :
      (alert : ParsedAlert)
      → Runs (Permitted library server c) Uncaught Small (collect_unscoped library server c alert)
  unfolding collect_unscoped
  collect_unscoped-Runs alert =
      if-Runs (Permitted library server c) Uncaught Small (is_some (label_of alert (lit "node"))) _
        _
        (λ e.
          fetch_nodes-Runs library server c (most_pods c) alert nothing_yet
            (omega arith, omega arith, tt))
        λ e.
          pure-Runs (Permitted library server c) Uncaught Small (note _ nothing_yet)
            (omega arith, omega arith, tt)

  collect_outside-Runs :
      (alert : ParsedAlert) (namespace : Text)
      → Runs
          (Permitted library server c)
          Uncaught
          Small
          (collect_outside library server c alert namespace)
  unfolding collect_outside
  collect_outside-Runs alert namespace =
      if-Runs (Permitted library server c) Uncaught Small
        (is_some (gitops_ref_from_alert alert) && c.flux && flux_in_scope c namespace) _ _
        (λ e.
          fetch_gitops-Runs library server c (most_pods c) faithful alert
            (record { state = in_namespace namespace; owner_labels = [] }) (Small-start namespace))
        λ e.
          pure-Runs (Permitted library server c) Uncaught Small (note _ nothing_yet)
            (omega arith, omega arith, tt)

  collect_inside-Runs :
      (alert : ParsedAlert) (namespace : Text)
      → in_scope c namespace ≡ true
      → Runs
          (Permitted library server c)
          Uncaught
          Small
          (collect_inside library server c alert namespace)
  unfolding collect_inside
  collect_inside-Runs alert namespace i =
      bind-Runs (Permitted library server c) Uncaught SmallWork Small
        (fetch_pods library server c alert namespace
          (record { state = in_namespace namespace; owner_labels = [] }))
        _
        (fetch_pods-Runs library server c alert namespace
          (record { state = in_namespace namespace; owner_labels = [] }) i
          (omega arith, omega arith, tt))
        λ w h.
          bind-Runs (Permitted library server c) Uncaught Small Small
            (fetch_events library server c namespace w.state) _
            (fetch_events-Runs library server c (most_pods c) namespace w.state i h)
            λ with_events h1.
              bind-Runs (Permitted library server c) Uncaught Small Small
                (fetch_pvc library server c alert namespace with_events) _
                (fetch_pvc-Runs library server c (most_pods c) alert namespace with_events i h1)
                λ with_claim h2.
                  bind-Runs (Permitted library server c) Uncaught Small Small
                    (fetch_nodes library server c alert with_claim) _
                    (fetch_nodes-Runs library server c (most_pods c) alert with_claim h2)
                    λ with_nodes h3.
                      if-Runs (Permitted library server c) Uncaught Small c.flux _ _
                        (λ e.
                          fetch_gitops-Runs library server c (most_pods c) faithful alert
                            (record w { state = with_nodes }) h3)
                        λ e. pure-Runs (Permitted library server c) Uncaught Small with_nodes h3

  inside_or_outside :
      (alert : ParsedAlert) (namespace : Text)
      → Runs (Permitted library server c) Uncaught Small (
          if in_scope c namespace
          then collect_inside library server c alert namespace
          else collect_outside library server c alert namespace)
  inside_or_outside alert namespace =
      if-Runs (Permitted library server c) Uncaught Small (in_scope c namespace) _ _
        (collect_inside-Runs alert namespace) λ e. collect_outside-Runs alert namespace

  pub collect-Runs :
      (alert : ParsedAlert)
      → Runs (Permitted library server c) Uncaught Small (collect library server c alert)
  unfolding collect
  collect-Runs alert = elim (Option-cases (alert_label alert (lit "namespace"))) [
    | inl e ↦ rw (e, collect) (collect_unscoped-Runs alert)
    | inr (namespace, e) ↦ rw (e, collect) (inside_or_outside alert namespace)
  ]
