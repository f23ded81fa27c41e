-- ===== src/Context/Laws.antt =====
-- agent/context_collector.py: `collect` gives a context whatever its parts raise.
use mathlib.Core.Path.{subst}
use llopster.Base.{
  some_inj, sym, append_assoc, ℕ, ◌≡◌, refl, Option, none, some, List, [], ◌∷◌, ◌++◌, false, map,
  All, Has, here, there, Text, lit, is_empty,
}
use llopster.Alerts.{ParsedAlert}
use llopster.Process.World.{Answer, returned, raised}
use llopster.Cluster.Objects.{Library}
use llopster.Cluster.Partial.{IfSome}
use llopster.Cluster.Session.{Server, Result, ok, failed, Failure}
use llopster.Cluster.State.{ClusterState, Collector}
use llopster.Cluster.Collect
use llopster.Cluster.Rules.{Uncaught, Holds, Runs, pure-Runs, and_then-Runs}
use llopster.Cluster.Permitted.{Permitted}
use llopster.Cluster.Answers.{IsFaithful}
use llopster.Cluster.Bounds.{IsSmall, most_pods}
use llopster.Cluster.Scope
use llopster.Context.Loki.{LogLine}
use llopster.Context.Prometheus.{MetricSample}
use llopster.Context.Collect.{
  AlertContext, ContextCollector, with_cluster, with_lines, with_samples, with_logs, with_metrics,
  build_logql, extract_promql, scopes, end_of, start_of, asked, used, with_state, collect,
}

-- No exception at all.
abbrev pub Never : Failure → Type 0
Never e = ⊥

-- The errors of a state, as a context has them.
abbrev pub AreReported : List Text → ClusterState → Type 0
AreReported errors state = All (λ e. Has (lit "cluster: " ++ e) errors) state.errors

-- A context of the alert: its state of the cluster is small, and all errors of that state are among
-- its own; without such a state it has an error.
pub record IsReport {Float : Type 0} (alert : ParsedAlert) (c : Collector)
    (ctx : AlertContext Float) : Type 0 where
  pub of_alert : ctx.alert ≡ alert
  pub small : IfSome (IsSmall c (most_pods c)) ctx.cluster_state
  pub reported : IfSome (AreReported ctx.errors) ctx.cluster_state
  pub missing : ctx.cluster_state ≡ none → is_empty ctx.errors ≡ false

Has-append_right : (x : Text) (xs ys : List Text) → Has x ys → Has x (xs ++ ys)
Has-append_right x [] ys h = h
Has-append_right x (y ∷ xs) ys h = there (Has-append_right x xs ys h)

All-Has-map :
    (f : Text → Text) (before errors : List Text)
    → All (λ e. Has (f e) (before ++ map f errors)) errors
All-Has-map f before [] = tt
All-Has-map f before (x ∷ xs) = (
  Has-append_right (f x) before (f x ∷ map f xs) (here refl),
  subst (λ l. All (λ e. Has (f e) l) xs) (append_assoc before (f x ∷ []) (map f xs))
      (All-Has-map f (before ++ (f x ∷ [])) xs),
)

is_empty-append : (xs : List Text) (x : Text) → is_empty (xs ++ (x ∷ [])) ≡ false
is_empty-append [] x = refl
is_empty-append (y ∷ xs) x = refl

module _ {Float : Type 0} (collector : ContextCollector Float) (alert : ParsedAlert) where
  -- A context of the alert, before the cluster is asked.
  abbrev IsFirst : AlertContext Float → Type 0
  IsFirst ctx = (ctx.alert ≡ alert) × (ctx.cluster_state ≡ none)

  with_lines-IsFirst :
      (r : Answer (List LogLine)) (ctx : AlertContext Float)
      → IsFirst ctx
      → IsFirst (with_lines r ctx)
  with_lines-IsFirst (returned lines) ctx h = h
  with_lines-IsFirst (raised e) ctx h = h

  with_samples-IsFirst :
      (r : Answer (List (MetricSample Float))) (ctx : AlertContext Float)
      → IsFirst ctx
      → IsFirst (with_samples r ctx)
  with_samples-IsFirst (returned samples) ctx h = h
  with_samples-IsFirst (raised e) ctx h = h

  with_logs-IsFirst :
      (start end : ℕ) (logql : Option Text) (ctx : AlertContext Float)
      → IsFirst ctx
      → IsFirst (with_logs collector start end logql ctx)
  unfolding with_logs
  with_logs-IsFirst start end none ctx h = h
  with_logs-IsFirst start end (some logql) ctx h =
      with_lines-IsFirst _ (used (lit "logql") logql ctx) h

  with_metrics-IsFirst :
      (end : ℕ) (promql : Option Text) (ctx : AlertContext Float)
      → IsFirst ctx
      → IsFirst (with_metrics collector end promql ctx)
  unfolding with_metrics
  with_metrics-IsFirst end none ctx h = h
  with_metrics-IsFirst end (some promql) ctx h =
      with_samples-IsFirst _ (used (lit "promql") promql ctx) h

  asked-IsFirst : (start : ℕ) → IsFirst (asked collector alert start)
  asked-IsFirst start =
      with_metrics-IsFirst (end_of collector alert) (extract_promql collector alert) _ (
        with_logs-IsFirst start (end_of collector alert) (build_logql alert (scopes collector)) _
          (refl, refl))

  with_state-IsReport :
      (c : Collector) (ctx : AlertContext Float) (r : Result ClusterState)
      → IsFirst ctx
      → Holds Uncaught (IsSmall c (most_pods c)) r
      → IsReport alert c (with_state collector ctx r)
  with_state-IsReport c ctx (ok state) h small = record {
    of_alert = h.0;
    small = small;
    reported = All-Has-map (λ e. lit "cluster: " ++ e) ctx.errors state.errors;
    missing = λ n. absurd (cc);
  }
  with_state-IsReport c ctx (failed f) h small = record {
    of_alert = h.0;
    small = subst (IfSome (IsSmall c (most_pods c))) (sym h.1) tt;
    reported = subst (IfSome _) (sym h.1) tt;
    missing = λ n. is_empty-append ctx.errors _;
  }

  with_cluster-Runs :
      (library : Library) (server : Server) (c : Collector)
      → IsFaithful c server
      → (ctx : AlertContext Float) → IsFirst ctx
      → (cluster : Option Collector) → cluster ≡ some c
      → Runs
          (Permitted library server c)
          Never
          (IsReport alert c)
          (with_cluster collector library server alert ctx cluster)
  with_cluster-Runs library server c faithful ctx first none e = absurd (cc)
  with_cluster-Runs library server c faithful ctx first (some d) e = rw (some_inj e) (
      and_then-Runs (Permitted library server c) Uncaught Never (IsSmall c (most_pods c))
        (IsReport alert c) (Collect.collect library server c alert) _
        (Scope.collect-Runs library server c faithful alert)
        λ r h.
          pure-Runs (Permitted library server c) Never (IsReport alert c)
            (with_state collector ctx r) (with_state-IsReport c ctx r first h))

  -- Where the window of the logs begins in the years 1 to 9999, and the API server answers a request
  -- for an object of a namespace with one that says that it is of that namespace: the collection
  -- raises nothing, whatever Loki, Prometheus and the API server do; all its requests are permitted;
  -- it returns a context of the alert, whose state of the cluster has at most as many pods (one at
  -- least) and events as configured and three Flux objects. All errors of that state are among those
  -- of the context, which has an error if it has no such state.
  pub collect-IsReport :
      (library : Library) (server : Server) (c : Collector) (start : ℕ)
      → IsFaithful c server
      → collector.cluster ≡ some c
      → start_of collector alert ≡ some start
      → Runs
          (Permitted library server c)
          Never
          (IsReport alert c)
          (collect collector library server alert)
  unfolding collect
  collect-IsReport library server c start faithful e fits =
      rw (fits, collect)
        (with_cluster-Runs library server c faithful (asked collector alert start)
          (asked-IsFirst start) collector.cluster e)
