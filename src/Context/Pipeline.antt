-- ===== src/Context/Pipeline.antt =====
-- agent/processor.py: the collection of context as `process_alert` asks for it. The lookback of a
-- run, if it has one, goes before that of the collector.
use llopster.Base.{Option, none, some, List, [], filter, map, length, lit}
use llopster.Base.Int.{ℤ}
use llopster.Alerts.{ParsedAlert, get}
use llopster.Process.World.{Answer, returned, raised, Collected, HeldObject}
use llopster.Cluster.Objects.{Library, FluxObjectState}
use llopster.Cluster.Session.{Server, Session, Result, ok, failed}
use llopster.Cluster.State.{ClusterState}
use llopster.Context.Collect.{AlertContext, ContextCollector, collect}

-- The Flux objects of the state, if there are any.
abbrev pub delivering : Option ClusterState → List FluxObjectState
delivering none = []
delivering (some state) = elim state.gitops [ none ↦ [] | some g ↦ g.objects ]

-- `suspended`
abbrev pub suspended : List FluxObjectState → List FluxObjectState
suspended objects = filter (λ o. o.suspended) objects

abbrev pub held_object : FluxObjectState → HeldObject
held_object o = record { kind = o.kind; namespace = o.namespace; name = o.name }

module _ {Float : Type 0} (collector : ContextCollector Float) where
  unfoldable pub active_collector : Option ℤ → ContextCollector Float
  active_collector none = collector
  active_collector (some minutes) = record collector { lookback_minutes = minutes }

  -- What the pipeline keeps of a context. The lookback that a run records is put in by it.
  unfoldable pub collected : AlertContext Float → Collected
  unfolding get lit
  collected ctx = record {
    columns = record {
      logql_used = get (lit "logql") ctx.queries_used;
      promql_used = get (lit "promql") ctx.queries_used;
      lookback_minutes = collector.lookback_minutes;
      log_line_count = length ctx.log_lines;
      metric_sample_count = length ctx.metric_samples;
      collection_errors = ctx.errors;
    };
    held = map held_object (suspended (delivering ctx.cluster_state));
  }

  abbrev pub answer_of : Result (AlertContext Float) → Answer Collected
  answer_of (ok ctx) = returned (collected ctx)
  answer_of (failed e) = raised (collector.describe e)

module _ {Float : Type 0} (collector : ContextCollector Float) where
  unfoldable pub collect_for :
      Library → Server → Session → ParsedAlert → Option ℤ → Answer Collected
  unfolding active_collector collected collect
  collect_for library server session alert minutes =
      let active = active_collector collector minutes in
      answer_of active (collect active library server alert session).0
