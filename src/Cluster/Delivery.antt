-- ===== src/Cluster/Delivery.antt =====
-- agent/cluster_state.py: the Flux objects that deliver what an alert is about.
use llopster.Base.{
  ℕ, zero, suc, Option, none, some, List, [], ◌∷◌, ◌++◌, Bool, true, false, not, if◌then◌else◌,
  filter, take, Text, lit, text_eq, starts_with, is_some,
}
use llopster.Alerts.{ParsedAlert}
use llopster.Cluster.Objects.{Library, PodCondition, ClusterEvent, FluxRef, FluxObjectState}
use llopster.Cluster.Events.{sort_events}
use llopster.Cluster.Session.{
  Server, Result, ok, failed, api_error, flux_not_installed, unexpected, M, pure, fail, handle,
  and_then, ◌>>=◌,
}
use llopster.Cluster.Client.{list_events}
use llopster.Cluster.Flux.{find, flux_kinds, get_flux_object}
use llopster.Cluster.State.{ClusterState, Collector, Work, note, report, queried, flux_in_scope}
use llopster.Cluster.Targets.{Target, gitops_target}
use llopster.Cluster.Evidence.{keep_newest}

abbrev pub max_source_hops : ℕ
max_source_hops = 2

abbrev pub first_ready : List PodCondition → Option Bool
first_ready [] = none
first_ready (c ∷ rest) =
    if text_eq c.type (lit "Ready")
    then if text_eq c.status (lit "True")
      then some true
      else if text_eq c.status (lit "False")
      then some false
      else none
    else first_ready rest

-- `ready`
unfoldable pub ready : FluxObjectState → Option Bool
unfolding text_eq lit
ready object = first_ready object.conditions

abbrev pub is_failing : FluxObjectState → Bool
is_failing object = elim (ready object) [ none ↦ false | some b ↦ not b ]

-- What is known of an object, and the state.
abbrev pub Found : Type 0
Found = Option FluxObjectState × ClusterState

abbrev pub not_installed : Text → Text
not_installed group = lit "API group " ++ (group ++ lit " is not served (Flux not installed?)")

-- The exceptions of the lookup, turned into a note or an error.
abbrev pub looked_up : Text → Text → ClusterState → Result (Option FluxObjectState) → M Found
looked_up shown queried_as state (ok none) = pure (none, note (shown ++ lit " not found") state)
looked_up shown queried_as state (ok (some object)) = pure (some object, queried queried_as state)
looked_up shown queried_as state (failed (flux_not_installed group)) =
    pure (none, note (shown ++ (lit " not read: " ++ not_installed group)) state)
looked_up shown queried_as state (failed (api_error e)) =
    pure (none, report (lit "flux lookup failed for " ++ (shown ++ (lit ": " ++ e))) state)
looked_up shown queried_as state (failed unexpected) = fail unexpected

abbrev pub ref_text : FluxRef → Text
ref_text ref = ref.kind ++ (b'/' ∷ (ref.namespace ++ (b'/' ∷ ref.name)))

module _ (library : Library) (server : Server) (c : Collector) where
  abbrev pub outside_flux : Text → ClusterState → ClusterState
  outside_flux shown state =
      note
        (shown
          ++ (lit " is in a namespace this agent may not read Flux objects in "
              ++ lit "(add it to agent.clusterContext.flux.namespaces)"))
        state

  unfoldable pub get_flux : Text → Text → Text → Option Text → ClusterState → M Found
  unfolding get_flux_object flux_in_scope lit
  get_flux kind namespace name version state =
      let shown = kind ++ (b' ' ∷ (namespace ++ (b'/' ∷ name))) in
      if flux_in_scope c namespace
      then and_then (get_flux_object library server kind namespace name version)
          (looked_up shown (kind ++ (b'/' ∷ name)) state)
      else pure (none, outside_flux shown state)

  -- The hops that are left, the next source, the objects so far and the state.
  unfoldable pub walk_sources :
      ℕ
      → Option FluxRef
      → List FluxObjectState
      → ClusterState
      → M (List FluxObjectState × ClusterState)
  unfolding get_flux ◌>>=◌ find lit
  walk_sources zero next objects state = pure (objects, state)
  walk_sources (suc hops) none objects state = pure (objects, state)
  walk_sources (suc hops) (some ref) objects state =
      if is_some (find ref.kind flux_kinds)
      then (do
        found ← get_flux ref.kind ref.namespace ref.name none state
        elim found.0 [
          | none ↦ pure (objects, found.1)
          | some source ↦ walk_sources hops source.source (objects ++ (source ∷ [])) found.1
        ])
      else pure (
        objects,
        note (lit "source " ++ (ref_text ref ++ lit " is not a kind this agent reads")) state,
      )

  abbrev pub object_ref : FluxObjectState → Text
  object_ref object = object.kind ++ (b'/' ∷ (object.namespace ++ (b'/' ∷ object.name)))

  -- the events of the objects
  unfoldable pub flux_events :
      List FluxObjectState → List ClusterEvent → ClusterState → M (List ClusterEvent × ClusterState)
  unfolding list_events lit starts_with
  flux_events [] collected state = pure (collected, state)
  flux_events (object ∷ rest) collected state =
      handle (list_events library server object.namespace object.name c.max_events)
        (λ e.
          flux_events rest collected (
            report (lit "event lookup failed for " ++ (object_ref object ++ (lit ": " ++ e)))
              state))
        λ events.
          flux_events rest
            (collected
              ++ filter (λ e. starts_with e.involved_object (object.kind ++ (b'/' ∷ []))) events)
            state

  -- the owner is there
  unfoldable pub delivery : Text → FluxObjectState → ClusterState → M ClusterState
  unfolding walk_sources flux_events sort_events ready ◌>>=◌ lit
  delivery resolved_from owner state = do
    chain ← walk_sources max_source_hops owner.source [] state
    found ← flux_events (owner ∷ filter is_failing chain.0) [] chain.1
    let ordered = sort_events found.0
    pure
        (record (keep_newest library server c (lit " Flux events matched; showing the ")
          (lit " most recent") ordered found.1) {
            gitops = some (record {
              resolved_from = resolved_from;
              objects = owner ∷ chain.0;
              events = take c.max_events ordered;
            });
          })

  abbrev pub with_owner : Text → Found → M ClusterState
  with_owner resolved_from (none, state) = pure state
  with_owner resolved_from (some owner, state) = delivery resolved_from owner state

  abbrev pub with_target : Option Target × ClusterState → M ClusterState
  with_target (none, state) = pure state
  with_target (some t, state) =
      get_flux t.kind t.namespace t.name t.version state >>= with_owner t.resolved_from

  unfoldable pub fetch_gitops : ParsedAlert → Work → M ClusterState
  unfolding gitops_target get_flux delivery ◌>>=◌
  fetch_gitops alert w = with_target (gitops_target alert w)
