-- ===== src/Context/Collect.antt =====
-- agent/context_collector.py: `ContextCollector.collect`. What Loki and Prometheus answer is a
-- parameter, and so are the parsing of URLs and the text of an exception.
use llopster.Base.{
  ℕ, Option, none, some, List, [], ◌∷◌, ◌++◌, if◌then◌else◌, map, Text, lit, is_empty,
}
use llopster.Alerts.{ParsedAlert, get, or_none}
use llopster.Base.Int.{ℤ}
use llopster.Process.World
use llopster.Process.World.{Answer, returned, raised, minus_minutes}
use llopster.Cluster.Objects.{Library}
use llopster.Cluster.Session.{
  Server, Result, ok, failed, Failure, unexpected, M, pure, fail, and_then,
}
use llopster.Cluster.State.{ClusterState, Collector}
use llopster.Cluster.Collect
use llopster.Context.Loki.{LogLine}
use llopster.Context.Prometheus.{MetricSample}

abbrev pub log_scope_labels : List Text
log_scope_labels =
    lit "service"
    ∷ lit "app"
    ∷ lit "app_kubernetes_io_name"
    ∷ lit "app_kubernetes_io_instance"
    ∷ lit "container"
    ∷ lit "pod"
    ∷ lit "namespace"
    ∷ lit "job"
    ∷ []

pub record AlertContext (Float : Type 0) : Type 0 where
  pub alert : ParsedAlert
  pub log_lines : List LogLine
  pub metric_samples : List (MetricSample Float)
  pub queries_used : List (Text × Text)
  pub cluster_state : Option ClusterState
  pub errors : List Text

pub record ContextCollector (Float : Type 0) : Type 0 where
  pub loki : Text → ℕ → ℕ → ℕ → Answer (List LogLine)
  pub prometheus : Text → ℕ → Answer (List (MetricSample Float))
  -- `parse_qs(urlparse(url).query)`, which may raise a ValueError
  pub query_of_url : Text → Option (List (Text × List Text))
  pub describe : Failure → Text
  pub now : ℕ
  pub lookback_minutes : ℤ
  pub max_log_lines : ℕ
  pub scope_labels : List Text
  pub cluster : Option Collector

abbrev or_overflow : World.Result ℕ → Option ℕ
or_overflow (World.ok at) = some at
or_overflow (World.raise e) = none

-- `{label="value"}`
abbrev selector : Text → Text → Text
selector label value = b'{' ∷ (label ++ (b'=' ∷ 34 ∷ (value ++ (34 ∷ b'}' ∷ []))))

unfoldable pub build_logql : ParsedAlert → List Text → Option Text
unfolding get
build_logql alert [] = none
build_logql alert (label ∷ labels) =
    let others = build_logql alert labels in
    elim (or_none (get label alert.labels)) [
      | none ↦ others
      | some value ↦ some (selector label value)
    ]

abbrev first : List Text → Option Text
first [] = none
first (t ∷ ts) = some t

abbrev expression : Option (List (Text × List Text)) → Option Text
expression none = none
expression (some query) = elim (get (lit "g0.expr") query) [
  | none ↦ none
  | some values ↦ or_none (first values)
]

module _ {Float : Type 0} where
  abbrev pub failed_with : Text → AlertContext Float → AlertContext Float
  failed_with text ctx = record ctx { errors = ctx.errors ++ (text ∷ []) }

  abbrev pub used : Text → Text → AlertContext Float → AlertContext Float
  used name query ctx = record ctx { queries_used = ctx.queries_used ++ ((name, query) ∷ []) }

  abbrev pub with_lines : Answer (List LogLine) → AlertContext Float → AlertContext Float
  with_lines (returned lines) ctx = record ctx { log_lines = lines }
  with_lines (raised e) ctx = failed_with (lit "loki query failed: " ++ e) ctx

  abbrev pub with_samples :
      Answer (List (MetricSample Float)) → AlertContext Float → AlertContext Float
  with_samples (returned samples) ctx = record ctx { metric_samples = samples }
  with_samples (raised e) ctx = failed_with (lit "prometheus query failed: " ++ e) ctx

module _ {Float : Type 0} (collector : ContextCollector Float) where
  unfoldable pub extract_promql : ParsedAlert → Option Text
  unfolding get lit
  extract_promql alert =
      if is_empty alert.generator_url
      then none
      else expression (collector.query_of_url alert.generator_url)

  unfoldable pub scopes : List Text
  unfolding lit
  scopes = if is_empty collector.scope_labels then log_scope_labels else collector.scope_labels

  abbrev pub end_of : ParsedAlert → ℕ
  end_of alert = elim alert.starts_at [ none ↦ collector.now | some at ↦ at ]

  -- The start of the window; nothing stands for an OverflowError.
  unfoldable pub start_of : ParsedAlert → Option ℕ
  unfolding minus_minutes
  start_of alert = or_overflow (minus_minutes (end_of alert) collector.lookback_minutes)

  -- the query of the logs
  unfoldable pub with_logs : ℕ → ℕ → Option Text → AlertContext Float → AlertContext Float
  unfolding lit
  with_logs start end none ctx =
      failed_with (lit "no usable label found to build LogQL selector") ctx
  with_logs start end (some logql) ctx =
      with_lines (collector.loki logql start end collector.max_log_lines)
        (used (lit "logql") logql ctx)

  -- the query of the metrics
  unfoldable pub with_metrics : ℕ → Option Text → AlertContext Float → AlertContext Float
  unfolding lit
  with_metrics end none ctx = ctx
  with_metrics end (some promql) ctx =
      with_samples (collector.prometheus promql end) (used (lit "promql") promql ctx)

  abbrev pub asked : ParsedAlert → ℕ → AlertContext Float
  asked alert start = with_metrics (end_of alert) (extract_promql alert) (
      with_logs start (end_of alert) (build_logql alert scopes) (record {
        alert = alert;
        log_lines = [];
        metric_samples = [];
        queries_used = [];
        cluster_state = none;
        errors = [];
      }))

  abbrev pub with_state : AlertContext Float → Result ClusterState → AlertContext Float
  with_state ctx (ok state) = record ctx {
    cluster_state = some state;
    errors = ctx.errors ++ map (λ e. lit "cluster: " ++ e) state.errors;
  }
  with_state ctx (failed e) =
      failed_with (lit "cluster state collection failed: " ++ collector.describe e) ctx

  abbrev pub with_cluster :
      Library
      → Server
      → ParsedAlert
      → AlertContext Float
      → Option Collector
      → M (AlertContext Float)
  with_cluster library server alert ctx none = pure ctx
  with_cluster library server alert ctx (some c) =
      and_then (Collect.collect library server c alert) λ r. pure (with_state ctx r)

  unfoldable pub collect : Library → Server → ParsedAlert → M (AlertContext Float)
  unfolding with_logs with_metrics build_logql extract_promql scopes start_of
  collect library server alert = elim (start_of alert) [
    | none ↦ fail unexpected
    | some start ↦ with_cluster library server alert (asked alert start) collector.cluster
  ]
