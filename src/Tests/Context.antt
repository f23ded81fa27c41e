-- ===== src/Tests/Context.antt =====
-- The collection of context at fixed inputs.
use llopster.Base.{
  text_eq_comm, Text, ℕ, ◌≡◌, refl, Option, none, some, List, [], ◌∷◌, ◌++◌, lit, text_eq,
}
use llopster.Base.Newest.{at}
use llopster.Base.Int.{pos}
use llopster.Alerts.{get}
use llopster.Process.World.{returned, raised}
use llopster.Json.{str, obj, Fields, end, field, lookup, is_truthy, truthy, dict_or_empty}
use llopster.Cluster.FluxObjects.{parse_flux_object}
use llopster.Cluster.FluxWithheld.{AreAlike, AreAlikeObjects, parse_flux_object-AreAlike}
use llopster.Cluster.Objects.{ClusterEvent}
use llopster.Cluster.Events.{sort_events}
use llopster.Cluster.EventOrder.{AreOrdered, stamped, sort_events-AreOrdered}
use llopster.Cluster.Permitted.{Permitted}
use llopster.Cluster.Rules.{Runs}
use llopster.Context.Collect.{ContextCollector, start_of, build_logql, log_scope_labels, collect}
use llopster.Context.Laws.{Never, IsReport, collect-IsReport}
use llopster.Tests.Data
use llopster.Tests.Cluster

abbrev pub context_collector : ContextCollector ℕ
context_collector = record {
  loki = λ query start end limit. raised (lit "timeout");
  prometheus = λ query at. returned [];
  query_of_url = λ url. none;
  describe = λ e. lit "error";
  now = 63000000000000000;
  lookback_minutes = pos 30;
  max_log_lines = 200;
  scope_labels = [];
  cluster = some Cluster.collector;
}

-- The first of the labels that the alert has is that of its service.
logql_of_crash :
    build_logql Data.crash log_scope_labels
    ≡ some (lit "{service=" ++ (34 ∷ (lit "api" ++ (34 ∷ lit "}"))))
unfolding build_logql get text_eq lit
logql_of_crash = refl

collect-IsReport_example :
    Runs
      (Permitted Cluster.library Cluster.server Cluster.collector)
      Never
      (IsReport Cluster.pod_alert Cluster.collector)
      (collect context_collector Cluster.library Cluster.server Cluster.pod_alert)
unfolding start_of
collect-IsReport_example =
    collect-IsReport context_collector Cluster.pod_alert Cluster.library Cluster.server
      Cluster.collector 62999998200000000 Cluster.server-IsFaithful refl refl

abbrev event_at : Option ℕ → ClusterEvent
event_at at = record {
  involved_object = lit "Pod/p1";
  type = none;
  reason = none;
  message = none;
  count = pos 1;
  last_timestamp = at;
}

abbrev three_events : List ClusterEvent
three_events = event_at (some 4) ∷ event_at none ∷ event_at (some 7) ∷ []

sort_events-AreOrdered_example :
    AreOrdered (sort_events three_events)
    × (stamped (some 7) (sort_events three_events) ≡ stamped (some 7) three_events)
sort_events-AreOrdered_example = sort_events-AreOrdered three_events (some 7)

-- A release with a name and one inline value.
abbrev release_spec : Text → Fields
release_spec secret =
    field (lit "values") (obj (field (lit "password") (str secret) end))
      (field (lit "releaseName") (str (lit "api")) end)

abbrev release_object : Text → Fields
release_object secret =
    field (lit "spec") (obj (release_spec secret))
      (field (lit "metadata") (obj (field (lit "name") (str (lit "api")) end)) end)

release_spec-AreAlike : AreAlike (release_spec (lit "a")) (release_spec (lit "b"))
unfolding lookup lit text_eq is_truthy truthy
release_spec-AreAlike = record {
  others = λ k e. rw (text_eq_comm (lit "values") k, e) refl;
  given = refl;
}

release_object-AreAlikeObjects :
    AreAlikeObjects (release_object (lit "a")) (release_object (lit "b"))
unfolding lookup lit text_eq dict_or_empty truthy
release_object-AreAlikeObjects = record {
  others = λ k e. rw (text_eq_comm (lit "spec") k, e) refl;
  spec_o = release_spec (lit "a");
  spec_p = release_spec (lit "b");
  reads_o = refl;
  reads_p = refl;
  alike = release_spec-AreAlike;
}

parse_flux_object-AreAlike_example :
    parse_flux_object Cluster.library (lit "HelmRelease") (release_object (lit "a"))
    ≡ parse_flux_object Cluster.library (lit "HelmRelease") (release_object (lit "b"))
parse_flux_object-AreAlike_example =
    parse_flux_object-AreAlike Cluster.library (lit "HelmRelease") (release_object (lit "a"))
      (release_object (lit "b")) release_object-AreAlikeObjects
