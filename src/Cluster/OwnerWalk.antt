-- ===== src/Cluster/OwnerWalk.antt =====
-- integrations/kubernetes_client.py: `resolve_owner_chain` ends with a short chain of distinct owners.
use llopster.Base.{
  ℕ, zero, suc, ◌+◌, ◌≤◌, ◌≡◌, refl, List, [], ◌∷◌, ◌++◌, true, false, Text, lit, text_eq,
  Bool-cases, Option-cases, inl, inr, arith, join_with,
}
use llopster.Json.{Fields, lookup, as_dict, text_or_empty}
use llopster.Cluster.Objects.{Library, OwnerRef}
use llopster.Cluster.Parse.{parse_owner_ref, owner_plural}
use llopster.Cluster.Labels.{controller_ref, gitops_labels}
use llopster.Cluster.Session.{Server, pure, lift}
use llopster.Cluster.Client.{get_namespaced, walk_owners, resolve_owner_chain, unreadable, is_seen}
use llopster.Cluster.State.{Collector, in_scope}
use llopster.Cluster.Rules.{Api, Anything, Runs, pure-Runs, bind-Runs, handle-Runs}
use llopster.Cluster.Permitted.{
  Permitted, workload, Kind, replica_set, deployment, stateful_set, daemon_set, job, cron_job,
}
use llopster.Cluster.Reads.{named-Runs, any_lift-Runs}
use llopster.Cluster.Owners.{IsKind, owner_plural-IsKind, IsChain, IsChain-append, IsChain-le}

module _ (library : Library) (server : Server) (c : Collector) where
  -- A lookup below one of the known groups.
  known_get :
      (group version plural ns name : Text)
      → Kind group version plural
      → in_scope c ns ≡ true
      → Runs
          (Permitted library server c)
          Api
          Anything
          (get_namespaced library server (group ++ (b'/' ∷ version)) plural ns name)
  unfolding get_namespaced lit join_with text_eq
  known_get _ _ _ ns name replica_set =
      named-Runs library server c (λ n. in_scope c n ≡ true) ns name _
        λ s t i a b. workload _ _ _ s t replica_set (a, i) b refl
  known_get _ _ _ ns name deployment =
      named-Runs library server c (λ n. in_scope c n ≡ true) ns name _
        λ s t i a b. workload _ _ _ s t deployment (a, i) b refl
  known_get _ _ _ ns name stateful_set =
      named-Runs library server c (λ n. in_scope c n ≡ true) ns name _
        λ s t i a b. workload _ _ _ s t stateful_set (a, i) b refl
  known_get _ _ _ ns name daemon_set =
      named-Runs library server c (λ n. in_scope c n ≡ true) ns name _
        λ s t i a b. workload _ _ _ s t daemon_set (a, i) b refl
  known_get _ _ _ ns name job =
      named-Runs library server c (λ n. in_scope c n ≡ true) ns name _
        λ s t i a b. workload _ _ _ s t job (a, i) b refl
  known_get _ _ _ ns name cron_job =
      named-Runs library server c (λ n. in_scope c n ≡ true) ns name _
        λ s t i a b. workload _ _ _ s t cron_job (a, i) b refl

  pub workload_get :
      (api_version plural ns name : Text)
      → IsKind api_version plural
      → in_scope c ns ≡ true
      → Runs
          (Permitted library server c)
          Api
          Anything
          (get_namespaced library server api_version plural ns name)
  workload_get api_version plural ns name k i =
      rw k.parts (known_get k.group k.version plural ns name k.kind i)

  stays :
      (m n : ℕ) (chain : List OwnerRef)
      → n ≤ m
      → IsChain n chain
      → Runs (Permitted library server c) Api (IsChain m) (pure chain)
  stays m n chain l h =
      pure-Runs (Permitted library server c) Api _ chain (IsChain-le n m chain l h)

  ends :
      (m n : ℕ) (chain : List OwnerRef) (ref : OwnerRef)
      → suc n ≤ m
      → IsChain n chain
      → is_seen ref chain ≡ false
      → Runs (Permitted library server c) Api (IsChain m) (pure (chain ++ (ref ∷ [])))
  ends m n chain ref l h new = stays m (suc n) _ l (IsChain-append n chain ref h new)

  -- From a chain of at most `n` owners the walk leads to one of at most as many more as there are
  -- rounds.
  walk_owners-Runs :
      (ns : Text) (rounds n m : ℕ) (chain : List OwnerRef) (current : Fields)
      → in_scope c ns ≡ true
      → rounds + n ≤ m
      → IsChain n chain
      → Runs
          (Permitted library server c)
          Api
          (IsChain m)
          (walk_owners library server ns rounds chain current)
  unfolding walk_owners
  walk_owners-Runs ns zero n m chain current i l h = stays m n chain (omega arith) h
  walk_owners-Runs ns (suc rounds) n m chain current i l h =
      bind-Runs (Permitted library server c) Api Anything _ (lift (controller_ref current)) _
        (any_lift-Runs library server c (controller_ref current))
        λ found q. elim (Option-cases found) [
          | inl e ↦ rw e (stays m n chain (omega arith) h)
          | inr (raw, e) ↦ rw e (
              bind-Runs (Permitted library server c) Api Anything _ (lift (parse_owner_ref raw)) _
                (any_lift-Runs library server c (parse_owner_ref raw))
                λ ref q.
                  bind-Runs (Permitted library server c) Api Anything _ (lift _) _
                    (any_lift-Runs library server c (text_or_empty (lookup (lit "apiVersion") raw)))
                    λ api_version q. elim (Bool-cases (is_seen ref chain)) [
                      | inl seen ↦ rw seen (stays m n chain (omega arith) h)
                      | inr new ↦ rw new (elim (Option-cases (owner_plural api_version ref.kind)) [
                        | inl e ↦ rw e (ends m n chain ref (omega arith) h new)
                        | inr (plural, e) ↦ rw e (
                            handle-Runs (Permitted library server c) Api Anything _ tt
                              (get_namespaced library server api_version plural ns ref.name) _ _
                              (workload_get api_version plural ns ref.name
                                (owner_plural-IsKind api_version ref.kind plural e) i)
                              (λ e. ends m n chain (unreadable ref) (omega arith) h new)
                              λ parent q. elim (Option-cases parent) [
                                | inl e ↦ rw e (ends m n chain (unreadable ref) (omega arith) h new)
                                | inr (object, e) ↦ rw e (
                                    bind-Runs (Permitted library server c) Api Anything _
                                      (lift (as_dict object)) _
                                      (any_lift-Runs library server c (as_dict object))
                                      λ fields q.
                                        bind-Runs (Permitted library server c) Api Anything _
                                          (lift _) _
                                          (any_lift-Runs library server c
                                            (gitops_labels library fields))
                                          λ labels q.
                                            walk_owners-Runs ns rounds (suc n) m _ fields i
                                              (omega arith)
                                              (IsChain-append n chain
                                                (record ref { gitops_labels = labels }) h new))
                              ])
                      ])
                    ])
        ]

  -- In a namespace of the workloads' scope: the walk along the owners of any object makes permitted
  -- requests only, raises nothing but the exception of the client and unexpected ones, and a chain
  -- that it returns has at most four owners and none twice, whatever the API server answers.
  pub resolve_owner_chain-Runs :
      (ns : Text) (object : Fields)
      → in_scope c ns ≡ true
      → Runs
          (Permitted library server c)
          Api
          (IsChain 4)
          (resolve_owner_chain library server ns object)
  unfolding resolve_owner_chain
  resolve_owner_chain-Runs ns object i =
      walk_owners-Runs ns 4 0 4 [] object i (omega arith)
        (record { short = omega arith; distinct = tt })
