-- ===== src/Cluster/DeliveryReads.antt =====
-- agent/cluster_state.py: the requests for Flux objects, and how many are kept.
use mathlib.Core.Path.{subst}
use llopster.Base.{
  All, All-append, All-filter, sym, arith, ℕ, zero, suc, ◌+◌, ◌≤◌, ◌≡◌, Option, none, some, List,
  [], ◌∷◌, ◌++◌, true, filter, length, length-append, Text, lit, is_some, Option-cases, inl, inr,
  arith,
}
use llopster.Alerts.{ParsedAlert}
use llopster.Cluster.Objects.{Library, ClusterEvent, FluxRef, FluxObjectState}
use llopster.Cluster.Events.{sort_events}
use llopster.Cluster.Session.{Server, Result, ok, failed, api_error, flux_not_installed, unexpected}
use llopster.Cluster.Client.{list_events}
use llopster.Cluster.Flux.{find, flux_kinds, get_flux_object}
use llopster.Cluster.State.{ClusterState, Collector, Work, note, report, queried, flux_in_scope}
use llopster.Cluster.Targets.{Target, gitops_target}
use llopster.Cluster.TargetBounds.{gitops_target-IsSmall}
use llopster.Cluster.Delivery.{
  Found, looked_up, get_flux, outside_flux, walk_sources, is_failing, flux_events, delivery,
  with_owner, with_target, fetch_gitops, max_source_hops,
}
use llopster.Cluster.Rules.{
  AnyFailure, Uncaught, Holds, Runs, weaken, pure-Runs, fail-Runs, bind-Runs, handle-Runs,
  and_then-Runs, if-Runs,
}
use llopster.Cluster.Permitted.{Permitted}
use llopster.Cluster.Reads.{list_events-Runs}
use llopster.Cluster.Partial.{IfSome}
use llopster.Cluster.Answers.{IsFaithful}
use llopster.Cluster.FluxReads.{get_flux_object-Runs}
use llopster.Cluster.Bounds.{IsSmall, length-take-le}
use llopster.Cluster.EvidenceReads.{IsSmall-keep_newest}

module _ (library : Library) (server : Server) (c : Collector) (n : ℕ) where
  abbrev Small : ClusterState → Type 0
  Small = IsSmall c n

  -- An object in a namespace that the agent may read.
  abbrev Open : FluxObjectState → Type 0
  Open object = flux_in_scope c object.namespace ≡ true

  abbrev SmallFound : Found → Type 0
  SmallFound found = IfSome Open found.0 × Small found.1

  abbrev SmallChain : ℕ → List FluxObjectState × ClusterState → Type 0
  SmallChain m found = (length found.0 ≤ m) × All Open found.0 × Small found.1

  looked_up-Runs :
      (shown queried_as : Text) (state : ClusterState) (r : Result (Option FluxObjectState))
      → Small state
      → Holds AnyFailure (IfSome Open) r
      → Runs (Permitted library server c) Uncaught SmallFound (looked_up shown queried_as state r)
  looked_up-Runs shown q state (ok none) h o =
      pure-Runs (Permitted library server c) Uncaught SmallFound (none, note _ state) (tt, h)
  looked_up-Runs shown q state (ok (some object)) h o =
      pure-Runs (Permitted library server c) Uncaught SmallFound (some object, queried q state)
        (o, h)
  looked_up-Runs shown q state (failed (flux_not_installed group)) h o =
      pure-Runs (Permitted library server c) Uncaught SmallFound (none, note _ state) (tt, h)
  looked_up-Runs shown q state (failed (api_error e)) h o =
      pure-Runs (Permitted library server c) Uncaught SmallFound (none, report _ state) (tt, h)
  looked_up-Runs shown q state (failed unexpected) h o =
      fail-Runs (Permitted library server c) Uncaught SmallFound unexpected tt

  opened :
      (ns : Text) (o : Option FluxObjectState)
      → flux_in_scope c ns ≡ true
      → IfSome (λ object. object.namespace ≡ ns) o
      → IfSome Open o
  opened ns none i h = tt
  opened ns (some object) i h = subst (λ t. flux_in_scope c t ≡ true) (sym h) i

  module _ (faithful : IsFaithful c server) where
    get_flux-Runs :
        (kind ns name : Text) (version : Option Text) (state : ClusterState)
        → Small state
        → Runs
            (Permitted library server c)
            Uncaught
            SmallFound
            (get_flux library server c kind ns name version state)
    unfolding get_flux
    get_flux-Runs kind ns name version state h =
        if-Runs (Permitted library server c) Uncaught SmallFound (flux_in_scope c ns) _ _
          (λ i.
            and_then-Runs (Permitted library server c) AnyFailure Uncaught (IfSome Open) SmallFound
              (get_flux_object library server kind ns name version) _
              (weaken (Permitted library server c) AnyFailure _ (IfSome Open)
                (get_flux_object library server kind ns name version) (λ o. opened ns o i)
                (get_flux_object-Runs library server c faithful kind ns name version i))
              λ r. looked_up-Runs _ _ state r h)
          λ o.
            pure-Runs (Permitted library server c) Uncaught SmallFound
              (none, outside_flux library server c _ state) (tt, h)

    walk_sources-Runs :
        (hops : ℕ) (next : Option FluxRef) (objects : List FluxObjectState) (state : ClusterState)
        (m : ℕ)
        → hops + length objects ≤ m
        → All Open objects
        → Small state
        → Runs
            (Permitted library server c)
            Uncaught
            (SmallChain m)
            (walk_sources library server c hops next objects state)
    unfolding walk_sources
    walk_sources-Runs zero next objects state m l a h =
        pure-Runs (Permitted library server c) Uncaught _ (objects, state) (omega arith, a, h)
    walk_sources-Runs (suc hops) none objects state m l a h =
        pure-Runs (Permitted library server c) Uncaught _ (objects, state) (omega arith, a, h)
    walk_sources-Runs (suc hops) (some ref) objects state m l a h =
        if-Runs (Permitted library server c) Uncaught (SmallChain m)
          (is_some (find ref.kind flux_kinds)) _ _
          (λ known.
            bind-Runs (Permitted library server c) Uncaught SmallFound (SmallChain m)
              (get_flux library server c ref.kind ref.namespace ref.name none state) _
              (get_flux-Runs ref.kind ref.namespace ref.name none state h)
              λ found q. elim (Option-cases found.0) [
                | inl e ↦ rw e (
                    pure-Runs (Permitted library server c) Uncaught _ (objects, found.1)
                      (omega arith, a, q.1))
                | inr (source, e) ↦ rw e (
                    walk_sources-Runs hops source.source (objects ++ (source ∷ [])) found.1 m
                      (omega (arith, length-append objects (source ∷ [])))
                      (All-append Open objects (source ∷ []) a (subst (IfSome Open) e q.0, tt)) q.1)
              ])
          λ unknown.
            pure-Runs (Permitted library server c) Uncaught (SmallChain m) (objects, note _ state)
              (omega arith, a, h)

    flux_events-Runs :
        (objects : List FluxObjectState) (collected : List ClusterEvent) (state : ClusterState)
        → All Open objects
        → Small state
        → Runs
            (Permitted library server c)
            Uncaught
            (λ found. Small found.1)
            (flux_events library server c objects collected state)
    unfolding flux_events
    flux_events-Runs [] collected state a h =
        pure-Runs (Permitted library server c) Uncaught _ (collected, state) h
    flux_events-Runs (object ∷ rest) collected state a h =
        handle-Runs (Permitted library server c) Uncaught _ _ tt
          (list_events library server object.namespace object.name c.max_events) _ _
          (list_events-Runs library server c object.namespace object.name c.max_events a.0)
          (λ e. flux_events-Runs rest collected (report _ state) a.1 h)
          λ events q. flux_events-Runs rest _ state a.1 h

    -- The object is in the scope, and so are the sources that are read.
    delivery-Runs :
        (resolved_from : Text) (owner : FluxObjectState) (state : ClusterState)
        → Open owner
        → Small state
        → Runs
            (Permitted library server c)
            Uncaught
            Small
            (delivery library server c resolved_from owner state)
    unfolding delivery
    delivery-Runs resolved_from owner state o h =
        bind-Runs (Permitted library server c) Uncaught (SmallChain 2) Small
          (walk_sources library server c max_source_hops owner.source [] state) _
          (walk_sources-Runs max_source_hops owner.source [] state 2 (omega arith) tt h)
          λ chain q.
            bind-Runs (Permitted library server c) Uncaught (λ found. Small found.1) Small
              (flux_events library server c (owner ∷ filter is_failing chain.0) [] chain.1) _
              (flux_events-Runs (owner ∷ filter is_failing chain.0) [] chain.1
                (o, All-filter Open is_failing chain.0 q.1) q.2)
              λ found r.
                let kept =
                  IsSmall-keep_newest library server c n (lit " Flux events matched; showing the ")
                    (lit " most recent") (sort_events found.0) found.1 r in
                pure-Runs (Permitted library server c) Uncaught Small _ (
                  kept.0,
                  kept.1,
                  (omega (arith, q.0), length-take-le c.max_events (sort_events found.0)),
                )

    with_owner-Runs :
        (resolved_from : Text) (found : Found)
        → SmallFound found
        → Runs
            (Permitted library server c)
            Uncaught
            Small
            (with_owner library server c resolved_from found)
    with_owner-Runs resolved_from (none, state) h =
        pure-Runs (Permitted library server c) Uncaught Small state h.1
    with_owner-Runs resolved_from (some owner, state) h =
        delivery-Runs resolved_from owner state h.0 h.1

    with_target-Runs :
        (found : Option Target × ClusterState)
        → Small found.1
        → Runs (Permitted library server c) Uncaught Small (with_target library server c found)
    with_target-Runs (none, state) h = pure-Runs (Permitted library server c) Uncaught Small state h
    with_target-Runs (some t, state) h =
        bind-Runs (Permitted library server c) Uncaught SmallFound Small
          (get_flux library server c t.kind t.namespace t.name t.version state) _
          (get_flux-Runs t.kind t.namespace t.name t.version state h)
          (with_owner-Runs t.resolved_from)

    pub fetch_gitops-Runs :
        (alert : ParsedAlert) (w : Work)
        → Small w.state
        → Runs (Permitted library server c) Uncaught Small (fetch_gitops library server c alert w)
    unfolding fetch_gitops
    fetch_gitops-Runs alert w h =
        with_target-Runs (gitops_target alert w) (gitops_target-IsSmall c n alert w h)
