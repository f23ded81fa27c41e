-- ===== src/Cluster/Reads.antt =====
-- integrations/kubernetes_client.py: the requests of `KubernetesClient` and what it raises.
use mathlib.Core.Path.{subst}
use llopster.Base.{
  ℕ, ◌≡◌, refl, sym, Option, some, List, [], true, Text, lit, Bool-cases, inl, inr, here, join_with,
}
use llopster.Json.{dict_or_empty}
use llopster.Cluster.Objects.{Library}
use llopster.Cluster.Events.{parse_events}
use llopster.Cluster.Session.{Param, Request, Server, api_error, lift, ◌>>=◌}
use llopster.Cluster.Client.{
  is_segment, segment, get_json, get_pod, list_pods, get_node, get_pvc, list_events, items_of,
}
use llopster.Cluster.State.{Collector, in_scope, flux_in_scope}
use llopster.Cluster.Rules.{Api, Anything, Runs, pure-Runs, fail-Runs, lift-Runs, bind-Runs, weaken}
use llopster.Cluster.Permitted.{IsName, Permitted, pod, pods, claim, events, node}
use llopster.Cluster.Answers.{get_json-Served}
use llopster.Cluster.Names.{is_segment-IsName}

module _ (P : Request → Type 0) (library : Library) where
  -- A name is used only where it passes the test.
  pub segment-Runs : (name : Text) → Runs P Api (λ s. (s ≡ name) × IsName s) (segment library name)
  unfolding segment
  segment-Runs name = elim (Bool-cases (is_segment name)) [
    | inl e ↦ rw e (pure-Runs P Api _ name (refl, is_segment-IsName name e))
    | inr e ↦ rw e (fail-Runs P Api _ (api_error _) tt)
  ]

  pub get_json-Runs :
      (server : Server) (path : Text) (params : List (Text × Param))
      → P (record { path = path; params = params })
      → Runs P Api Anything (get_json library server path params)
  get_json-Runs server path params p =
      weaken P Api _ Anything (get_json library server path params) (λ a e. tt)
        (get_json-Served P library server path params p)

module _ (library : Library) (server : Server) (c : Collector) where
  pub any_lift-Runs :
      {A : Type 0} (o : Option A) → Runs (Permitted library server c) Api Anything (lift o)
  any_lift-Runs o =
      weaken (Permitted library server c) Api (λ a. o ≡ some a) Anything (lift o) (λ a e. tt)
        (lift-Runs (Permitted library server c) Api tt o)

  -- A request whose path has two names in it.
  pub named-Runs :
      (Q : Text → Type 0) (ns name : Text) (path : Text → Text → Text)
      → ((s t : Text)
          → Q s
          → IsName s
          → IsName t
          → Permitted library server c (record { path = path s t; params = [] }))
      → Q ns
      → Runs (Permitted library server c) Api Anything (
          segment library ns >>= λ s.
          segment library name >>= λ t. get_json library server (path s t) [])
  named-Runs Q ns name path permit q =
      bind-Runs (Permitted library server c) Api _ Anything (segment library ns) _
        (segment-Runs (Permitted library server c) library ns)
        λ s h.
          bind-Runs (Permitted library server c) Api _ Anything (segment library name) _
            (segment-Runs (Permitted library server c) library name)
            λ t k.
              get_json-Runs (Permitted library server c) library server (path s t) []
                (permit s t (subst Q (sym h.0) q) h.1 k.1)

  pub get_pod-Runs :
      (ns name : Text)
      → in_scope c ns ≡ true
      → Runs (Permitted library server c) Api Anything (get_pod library server ns name)
  unfolding get_pod lit join_with
  get_pod-Runs ns name =
      named-Runs (λ n. in_scope c n ≡ true) ns name _ λ s t i a b. pod s t (a, i) b refl

  pub get_pvc-Runs :
      (ns name : Text)
      → in_scope c ns ≡ true
      → Runs (Permitted library server c) Api Anything (get_pvc library server ns name)
  unfolding get_pvc lit join_with
  get_pvc-Runs ns name =
      named-Runs (λ n. in_scope c n ≡ true) ns name _ λ s t i a b. claim s t (a, i) b refl

  pub get_node-Runs :
      (name : Text)
      → c.all_namespaces ≡ true
      → Runs (Permitted library server c) Api Anything (get_node library server name)
  unfolding get_node lit join_with
  get_node-Runs name all =
      bind-Runs (Permitted library server c) Api _ Anything (segment library name) _
        (segment-Runs (Permitted library server c) library name)
        λ t k. get_json-Runs (Permitted library server c) library server _ [] (node t all k.1 refl)

  pub list_pods-Runs :
      (ns selector : Text) (limit : ℕ)
      → in_scope c ns ≡ true
      → Runs (Permitted library server c) Api Anything (list_pods library server ns selector limit)
  unfolding list_pods lit join_with
  list_pods-Runs ns selector limit i =
      bind-Runs (Permitted library server c) Api _ Anything (segment library ns) _
        (segment-Runs (Permitted library server c) library ns)
        λ s h.
          bind-Runs (Permitted library server c) Api Anything Anything (get_json library server _ _)
            _
            (get_json-Runs (Permitted library server c) library server _ _
              (pods s (h.1, subst (λ n. in_scope c n ≡ true) (sym h.0) i) refl))
            λ payload q. any_lift-Runs (items_of payload)

  pub list_events-Runs :
      (ns name : Text) (limit : ℕ)
      → flux_in_scope c ns ≡ true
      → Runs (Permitted library server c) Api Anything (list_events library server ns name limit)
  unfolding list_events lit join_with
  list_events-Runs ns name limit i =
      bind-Runs (Permitted library server c) Api _ Anything (segment library ns) _
        (segment-Runs (Permitted library server c) library ns)
        λ s h.
          bind-Runs (Permitted library server c) Api _ Anything (segment library name) _
            (segment-Runs (Permitted library server c) library name)
            λ t k.
              bind-Runs (Permitted library server c) Api Anything Anything
                (get_json library server _ _) _
                (get_json-Runs (Permitted library server c) library server _ _ (
                  events s t (h.1, subst (λ n. flux_in_scope c n ≡ true) (sym h.0) i) k.1 refl
                    (here refl)))
                λ payload q.
                  bind-Runs (Permitted library server c) Api Anything Anything (lift _) _
                    (any_lift-Runs (dict_or_empty payload))
                    λ body q. any_lift-Runs (parse_events library body)
