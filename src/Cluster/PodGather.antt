-- ===== src/Cluster/PodGather.antt =====
-- agent/cluster_state.py: the requests of the loop over the pods of `_fetch_pods`, and how many it adds.
use llopster.Base.{ℕ, suc, ◌+◌, ◌≤◌, ◌≡◌, List, [], ◌∷◌, ◌++◌, true, length, Text, lit, arith}
use llopster.Json.{Fields}
use llopster.Cluster.Objects.{Library}
use llopster.Cluster.Pods.{parse_pod}
use llopster.Cluster.Session.{Server, lift}
use llopster.Cluster.Client.{resolve_owner_chain}
use llopster.Cluster.State.{Collector, Work, report, in_scope}
use llopster.Cluster.PodSearch.{add_pod, on_state, gather_pod, gather_pods, pod_seen}
use llopster.Cluster.Rules.{Uncaught, Runs, pure-Runs, lift-Runs, bind-Runs, handle-Runs}
use llopster.Cluster.Permitted.{Permitted}
use llopster.Cluster.OwnerWalk.{resolve_owner_chain-Runs}
use llopster.Cluster.Bounds.{IsSmall, IsSmall-le, IsSmall-add_pod, IsSmall-pod_seen}

module _ (c : Collector) where
  -- What is gathered holds at most so many pods.
  abbrev pub Small : ℕ → Work → Type 0
  Small n w = IsSmall c n w.state

module _ (library : Library) (server : Server) (c : Collector) where
  gather_pod-Runs :
      (ns : Text) (object : Fields) (w : Work) (n : ℕ)
      → in_scope c ns ≡ true
      → Small c n w
      → Runs
          (Permitted library server c)
          Uncaught
          (Small c (suc n))
          (gather_pod library server c ns object w)
  unfolding gather_pod
  gather_pod-Runs ns object w n i h =
      bind-Runs (Permitted library server c) Uncaught _ _ (lift (parse_pod library _ _ object)) _
        (lift-Runs (Permitted library server c) Uncaught tt (parse_pod library _ _ object))
        λ pod q.
          handle-Runs (Permitted library server c) Uncaught _ _ tt
            (resolve_owner_chain library server ns object) _ _
            (resolve_owner_chain-Runs library server c ns object i)
            (λ e.
              let failed =
                on_state (report (lit "owner chain lookup failed: " ++ e)) (pod_seen pod w) in
              pure-Runs (Permitted library server c) Uncaught _ (add_pod pod failed)
                (IsSmall-add_pod c n pod failed (IsSmall-pod_seen c n pod w h)))
            λ chain q.
              let owned = record pod { owner_chain = chain } in
              pure-Runs (Permitted library server c) Uncaught _ (add_pod owned (pod_seen pod w))
                (IsSmall-add_pod c n owned (pod_seen pod w) (IsSmall-pod_seen c n pod w h))

  pub gather_pods-Runs :
      (ns : Text) (objects : List Fields) (w : Work) (n m : ℕ)
      → in_scope c ns ≡ true
      → length objects + n ≤ m
      → Small c n w
      → Runs
          (Permitted library server c)
          Uncaught
          (Small c m)
          (gather_pods library server c ns objects w)
  unfolding gather_pods
  gather_pods-Runs ns [] w n m i l h =
      pure-Runs (Permitted library server c) Uncaught _ w (IsSmall-le c n m w.state (omega arith) h)
  gather_pods-Runs ns (object ∷ rest) w n m i l h =
      bind-Runs (Permitted library server c) Uncaught (Small c (suc n)) (Small c m)
        (gather_pod library server c ns object w) (gather_pods library server c ns rest)
        (gather_pod-Runs ns object w n i h)
        λ w' q. gather_pods-Runs ns rest w' (suc n) m i (omega arith) q
