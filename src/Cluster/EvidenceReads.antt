-- ===== src/Cluster/EvidenceReads.antt =====
-- agent/cluster_state.py: the requests for events, claims and nodes, and how much is kept.
use llopster.Base.{
  ℕ, ◌≡◌, List, [], ◌∷◌, ◌++◌, true, take, ltb, length, Text, lit, Bool-cases, Option-cases, inl,
  inr, arith,
}
use llopster.Alerts.{ParsedAlert}
use llopster.Json.{as_dict}
use llopster.Cluster.Objects.{Library, ClusterEvent}
use llopster.Cluster.Pods.{parse_pvc, parse_node}
use llopster.Cluster.Events.{sort_events}
use llopster.Cluster.Session.{Server, pure, lift}
use llopster.Cluster.Client.{list_events, get_pvc, get_node}
use llopster.Cluster.State.{
  ClusterState, Collector, note, report, in_scope, flux_in_scope, label_of, event_sources,
}
use llopster.Cluster.Evidence.{
  max_event_sources, capped_note, keep_newest, events_of, fetch_events, claim_events, fetch_claim,
  fetch_pvc, node_for, fetch_node, fetch_nodes,
}
use llopster.Cluster.Rules.{Uncaught, Runs, pure-Runs, lift-Runs, bind-Runs, handle-Runs, if-Runs}
use llopster.Cluster.Permitted.{Permitted}
use llopster.Cluster.Reads.{list_events-Runs, get_pvc-Runs, get_node-Runs}
use llopster.Cluster.Bounds.{IsSmall, length-take-le}

-- A namespace of the workloads is one of Flux too.
pub flux_in_scope_of :
    (c : Collector) (ns : Text) → in_scope c ns ≡ true → flux_in_scope c ns ≡ true
unfolding in_scope flux_in_scope
flux_in_scope_of c ns h = ground arith

module _ (library : Library) (server : Server) (c : Collector) (n : ℕ) where
  abbrev pub Small : ClusterState → Type 0
  Small = IsSmall c n

  -- The newest events are few.
  pub IsSmall-keep_newest :
      (matched shown : Text) (events : List ClusterEvent) (state : ClusterState)
      → Small state
      → Small (keep_newest library server c matched shown events state)
  IsSmall-keep_newest matched shown events state h =
      elim (Bool-cases (ltb c.max_events (length events))) [ inl e ↦ rw e h | inr e ↦ rw e h ]

  pub IsSmall-events :
      (events : List ClusterEvent) (state : ClusterState)
      → Small state
      → Small (record state { events = take c.max_events events })
  IsSmall-events events state h = (h.0, length-take-le c.max_events events, h.2)

  newest-Runs :
      (matched shown : Text) (events : List ClusterEvent) (state : ClusterState)
      → Small state
      → Runs (Permitted library server c) Uncaught Small (
          pure (record (keep_newest library server c matched shown events state) {
            events = take c.max_events events;
          }))
  newest-Runs matched shown events state h =
      pure-Runs (Permitted library server c) Uncaught Small
        (record (keep_newest library server c matched shown events state) {
          events = take c.max_events events;
        })
        (IsSmall-events events (keep_newest library server c matched shown events state)
          (IsSmall-keep_newest matched shown events state h))

  IsSmall-capped :
      (sources : List Text) (state : ClusterState)
      → Small state
      → Small (capped_note library server c sources state)
  IsSmall-capped sources state h = elim (Bool-cases (ltb max_event_sources (length sources))) [
    | inl e ↦ rw e h
    | inr e ↦ rw e h
  ]

  abbrev SmallEvents : List ClusterEvent × ClusterState → Type 0
  SmallEvents found = Small found.1

  events_of-Runs :
      (ns : Text) (names : List Text) (collected : List ClusterEvent) (state : ClusterState)
      → in_scope c ns ≡ true
      → Small state
      → Runs
          (Permitted library server c)
          Uncaught
          SmallEvents
          (events_of library server c ns names collected state)
  unfolding events_of
  events_of-Runs ns [] collected state i h =
      pure-Runs (Permitted library server c) Uncaught _ (collected, state) h
  events_of-Runs ns (name ∷ rest) collected state i h =
      handle-Runs (Permitted library server c) Uncaught _ _ tt
        (list_events library server ns name c.max_events) _ _
        (list_events-Runs library server c ns name c.max_events (flux_in_scope_of c ns i))
        (λ e. events_of-Runs ns rest collected (report _ state) i h)
        λ events q. events_of-Runs ns rest (collected ++ events) state i h

  pub fetch_events-Runs :
      (ns : Text) (state : ClusterState)
      → in_scope c ns ≡ true
      → Small state
      → Runs (Permitted library server c) Uncaught Small (fetch_events library server c ns state)
  unfolding fetch_events
  fetch_events-Runs ns state i h =
      let sources = event_sources state in
      bind-Runs (Permitted library server c) Uncaught SmallEvents _
        (events_of library server c ns _ [] _) _
        (events_of-Runs ns (take max_event_sources sources) []
          (capped_note library server c sources state) i (IsSmall-capped sources state h))
        λ found q.
          let ordered = sort_events found.0 in
          newest-Runs (lit " events matched; showing the ") (lit " most recent") ordered found.1 q

  claim_events-Runs :
      (ns name : Text) (state : ClusterState)
      → in_scope c ns ≡ true
      → Small state
      → Runs
          (Permitted library server c)
          Uncaught
          Small
          (claim_events library server c ns name state)
  unfolding claim_events
  claim_events-Runs ns name state i h =
      handle-Runs (Permitted library server c) Uncaught _ _ tt
        (list_events library server ns name c.max_events) _ _
        (list_events-Runs library server c ns name c.max_events (flux_in_scope_of c ns i))
        (λ e. pure-Runs (Permitted library server c) Uncaught Small (report _ state) h)
        λ extra q.
          let merged = sort_events (state.events ++ extra) in
          newest-Runs (lit " events matched including the claim's; showing the ")
            (lit " most recent") merged state h

  fetch_claim-Runs :
      (ns name : Text) (state : ClusterState)
      → in_scope c ns ≡ true
      → Small state
      → Runs
          (Permitted library server c)
          Uncaught
          Small
          (fetch_claim library server c ns name state)
  unfolding fetch_claim
  fetch_claim-Runs ns name state i h =
      handle-Runs (Permitted library server c) Uncaught _ _ tt (get_pvc library server ns name) _ _
        (get_pvc-Runs library server c ns name i)
        (λ e. pure-Runs (Permitted library server c) Uncaught Small (report _ state) h)
        λ found q. elim (Option-cases found) [
          | inl e ↦ rw e (pure-Runs (Permitted library server c) Uncaught Small (note _ state) h)
          | inr (object, e) ↦ rw e (
              bind-Runs (Permitted library server c) Uncaught _ _ (lift (as_dict object)) _
                (lift-Runs (Permitted library server c) Uncaught tt (as_dict object))
                λ fields q.
                  bind-Runs (Permitted library server c) Uncaught _ _ (lift (parse_pvc fields)) _
                    (lift-Runs (Permitted library server c) Uncaught tt (parse_pvc fields))
                    λ claim q. claim_events-Runs ns name _ i h)
        ]

  pub fetch_pvc-Runs :
      (alert : ParsedAlert) (ns : Text) (state : ClusterState)
      → in_scope c ns ≡ true
      → Small state
      → Runs (Permitted library server c) Uncaught Small (fetch_pvc library server c alert ns state)
  unfolding fetch_pvc
  fetch_pvc-Runs alert ns state i h =
      elim (Option-cases (label_of alert (lit "persistentvolumeclaim"))) [
        | inl e ↦ rw (e, fetch_pvc) (pure-Runs (Permitted library server c) Uncaught Small state h)
        | inr (name, e) ↦ rw (e, fetch_pvc) (fetch_claim-Runs ns name state i h)
      ]

  fetch_node-Runs :
      (name : Text) (state : ClusterState)
      → c.all_namespaces ≡ true
      → Small state
      → Runs (Permitted library server c) Uncaught Small (fetch_node library server c name state)
  unfolding fetch_node
  fetch_node-Runs name state all h =
      handle-Runs (Permitted library server c) Uncaught _ _ tt (get_node library server name) _ _
        (get_node-Runs library server c name all)
        (λ e. pure-Runs (Permitted library server c) Uncaught Small (report _ state) h)
        λ found q. elim (Option-cases found) [
          | inl e ↦ rw e (pure-Runs (Permitted library server c) Uncaught Small (note _ state) h)
          | inr (object, e) ↦ rw e (
              bind-Runs (Permitted library server c) Uncaught _ _ (lift (as_dict object)) _
                (lift-Runs (Permitted library server c) Uncaught tt (as_dict object))
                λ fields q.
                  bind-Runs (Permitted library server c) Uncaught _ _ (lift (parse_node fields)) _
                    (lift-Runs (Permitted library server c) Uncaught tt (parse_node fields))
                    λ node q. pure-Runs (Permitted library server c) Uncaught Small _ h)
        ]

  pub fetch_nodes-Runs :
      (alert : ParsedAlert) (state : ClusterState)
      → Small state
      → Runs (Permitted library server c) Uncaught Small (fetch_nodes library server c alert state)
  unfolding fetch_nodes
  fetch_nodes-Runs alert state h = elim (Option-cases (node_for library server c alert state)) [
    | inl e ↦ rw (e, fetch_nodes) (pure-Runs (Permitted library server c) Uncaught Small state h)
    | inr (name, e) ↦
        rw (e, fetch_nodes)
          (if-Runs (Permitted library server c) Uncaught Small c.all_namespaces _ _
            (λ all. fetch_node-Runs name state all h)
            λ bound. pure-Runs (Permitted library server c) Uncaught Small (note _ state) h)
  ]
