-- ===== src/Cluster/Evidence.antt =====
-- agent/cluster_state.py: the events, the claim and the node of an alert.
use llopster.Base.{
  ℕ, Option, none, some, List, [], ◌∷◌, ◌++◌, if◌then◌else◌, ltb, take, drop, length, Text, lit,
  is_empty,
}
use llopster.Alerts.{ParsedAlert}
use llopster.Json.{as_dict}
use llopster.Cluster.Objects.{Library, PodState, ClusterEvent}
use llopster.Cluster.Pods.{parse_pvc, parse_node}
use llopster.Cluster.Events.{sort_events}
use llopster.Cluster.Session.{Server, M, pure, lift, handle, ◌>>=◌}
use llopster.Cluster.Client.{list_events, get_pvc, get_node}
use llopster.Cluster.State.{ClusterState, Collector, note, report, queried, label_of, event_sources}

abbrev pub max_event_sources : ℕ
max_event_sources = 4

-- `", ".join(texts)`
abbrev pub comma_separated : List Text → Text
comma_separated [] = []
comma_separated (t ∷ []) = t
comma_separated (t ∷ u ∷ rest) = t ++ (lit ", " ++ comma_separated (u ∷ rest))

module _ (library : Library) (server : Server) (c : Collector) where
  -- the loop over the sources
  unfoldable pub events_of :
      Text → List Text → List ClusterEvent → ClusterState → M (List ClusterEvent × ClusterState)
  unfolding list_events handle ◌>>=◌ lit
  events_of namespace [] collected state = pure (collected, state)
  events_of namespace (name ∷ rest) collected state =
      handle (list_events library server namespace name c.max_events)
        (λ e.
          events_of namespace rest collected
            (report (lit "event lookup failed for " ++ (name ++ (lit ": " ++ e))) state))
        λ events. events_of namespace rest (collected ++ events) state

  abbrev pub capped_note : List Text → ClusterState → ClusterState
  capped_note sources state =
      if ltb max_event_sources (length sources)
      then note
          (lit "events not fetched for "
            ++ (comma_separated (drop max_event_sources sources)
                ++ lit " (capped at 4 objects per alert)"))
          state
      else state

  -- The newest events, and what is said of the others.
  abbrev pub keep_newest : Text → Text → List ClusterEvent → ClusterState → ClusterState
  keep_newest matched shown events state =
      if ltb c.max_events (length events)
      then note
          (library.show_nat (length events)
            ++ (matched ++ (library.show_nat c.max_events ++ shown)))
          state
      else state

  unfoldable pub fetch_events : Text → ClusterState → M ClusterState
  unfolding event_sources events_of sort_events ◌>>=◌ lit
  fetch_events namespace state = do
    let sources = event_sources state
    found ← events_of namespace (take max_event_sources sources) [] (capped_note sources state)
    let ordered = sort_events found.0
    pure
        (record (keep_newest (lit " events matched; showing the ") (lit " most recent") ordered
          found.1) { events = take c.max_events ordered })

  -- the claim is there
  unfoldable pub claim_events : Text → Text → ClusterState → M ClusterState
  unfolding list_events sort_events handle ◌>>=◌ lit
  claim_events namespace name state =
      handle (list_events library server namespace name c.max_events)
        (λ e. pure (report (lit "event lookup failed for " ++ (name ++ (lit ": " ++ e))) state))
        λ extra.
          let merged = sort_events (state.events ++ extra) in
          pure
            (record (keep_newest (lit " events matched including the claim's; showing the ")
              (lit " most recent") merged state) { events = take c.max_events merged })

  unfoldable pub fetch_claim : Text → Text → ClusterState → M ClusterState
  unfolding get_pvc parse_pvc claim_events handle ◌>>=◌ lit
  fetch_claim namespace name state =
      handle (get_pvc library server namespace name)
        (λ e. pure (report (lit "pvc lookup failed: " ++ e) state))
        λ found. elim found [
          | none ↦ pure (
              note
                (lit "PersistentVolumeClaim " ++ (namespace ++ (b'/' ∷ (name ++ lit " not found"))))
                state)
          | some object ↦ do
            fields ← lift (as_dict object)
            claim ← lift (parse_pvc fields)
            claim_events namespace name (
                queried (lit "PersistentVolumeClaim/" ++ name)
                  (record state { pvcs = state.pvcs ++ (claim ∷ []) }))
        ]

  unfoldable pub fetch_pvc : ParsedAlert → Text → ClusterState → M ClusterState
  unfolding fetch_claim lit
  fetch_pvc alert namespace state = elim (label_of alert (lit "persistentvolumeclaim")) [
    | none ↦ pure state
    | some name ↦ fetch_claim namespace name state
  ]

  abbrev pub node_of_pods : List PodState → Option Text
  node_of_pods [] = none
  node_of_pods (pod ∷ rest) =
      let others = node_of_pods rest in
      elim pod.node_name [ none ↦ others | some name ↦ if is_empty name then others else some name ]

  abbrev pub node_for : ParsedAlert → ClusterState → Option Text
  node_for alert state = elim (label_of alert (lit "node")) [
    | some name ↦ some name
    | none ↦ node_of_pods state.pods
  ]

  unfoldable pub fetch_node : Text → ClusterState → M ClusterState
  unfolding get_node parse_node handle ◌>>=◌ lit
  fetch_node name state =
      handle (get_node library server name)
        (λ e. pure (report (lit "node lookup failed: " ++ e) state))
        λ found. elim found [
          | none ↦ pure (note (lit "node " ++ (name ++ lit " not found")) state)
          | some object ↦ do
            fields ← lift (as_dict object)
            node ← lift (parse_node fields)
            pure (
                queried (lit "Node/" ++ name) (record state { nodes = state.nodes ++ (node ∷ []) }))
        ]

  unfoldable pub fetch_nodes : ParsedAlert → ClusterState → M ClusterState
  unfolding fetch_node lit
  fetch_nodes alert state = elim (node_for alert state) [
    | none ↦ pure state
    | some name ↦
        if c.all_namespaces
        then fetch_node name state
        else pure (
            note
              (lit "node "
                ++ (name
                    ++ (lit " not read: nodes are cluster-scoped and this agent is "
                        ++ lit "bound to individual namespaces")))
              state)
  ]
