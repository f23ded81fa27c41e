-- ===== src/Cluster/Bounds.antt =====
-- agent/cluster_state.py: how much a state of the cluster may hold.
use Prim.Native.Nat.{max}
use llopster.Base.{
  ℕ, zero, suc, ◌≤◌, Option, none, some, List, [], ◌∷◌, ◌++◌, Bool, true, false, if◌then◌else◌,
  take, length, length-append, Text, lit, arith,
}
use llopster.Cluster.Objects.{PodState}
use llopster.Cluster.State.{ClusterState, GitOpsState, Collector, Work, note}
use llopster.Cluster.PodSearch.{add_pod, pod_seen}
use llopster.Cluster.State.{queried}

abbrev pub IsSmallDelivery : ℕ → Option GitOpsState → Type 0
IsSmallDelivery events none = Unit
IsSmallDelivery events (some g) = (length g.objects ≤ 3) × (length g.events ≤ events)

-- At most `n` pods, as many events as the configuration says, and at most three Flux objects.
abbrev pub IsSmall : Collector → ℕ → ClusterState → Type 0
IsSmall c n state =
    (length state.pods ≤ n)
    × (length state.events ≤ c.max_events)
    × IsSmallDelivery c.max_events state.gitops

abbrev pub most_pods : Collector → ℕ
most_pods c = max 1 c.max_pods

module _ {ℓ} {A : Type ℓ} where
  pub length-take-le : (n : ℕ) (xs : List A) → length (take n xs) ≤ n
  length-take-le zero xs = omega arith
  length-take-le (suc n) [] = omega arith
  length-take-le (suc n) (x ∷ xs) = omega (arith, length-take-le n xs)

module _ (c : Collector) where
  pub IsSmall-note_if :
      (n : ℕ) (b : Bool) (text : Text) (state : ClusterState)
      → IsSmall c n state
      → IsSmall c n (if b then note text state else state)
  IsSmall-note_if n true text state h = h
  IsSmall-note_if n false text state h = h

  pub IsSmall-le : (m n : ℕ) (state : ClusterState) → m ≤ n → IsSmall c m state → IsSmall c n state
  IsSmall-le m n state l h = (omega arith, h.1, h.2)

  pub IsSmall-add_pod :
      (n : ℕ) (pod : PodState) (w : Work)
      → IsSmall c n w.state
      → IsSmall c (suc n) (add_pod pod w).state
  IsSmall-add_pod n pod w h = (omega (arith, h.0, length-append w.state.pods (pod ∷ [])), h.1, h.2)

  pub IsSmall-pod_seen :
      (n : ℕ) (pod : PodState) (w : Work) → IsSmall c n w.state → IsSmall c n (pod_seen pod w).state
  IsSmall-pod_seen n pod w h =
      IsSmall-note_if n pod.spec_truncated
        (lit "pod spec for "
          ++ (pod.name
              ++ (lit " exceeded the size ceiling and was omitted; container states, restart "
                  ++ lit "counts and resources are still below")))
        (queried (lit "Pod/" ++ pod.name) w.state) h
