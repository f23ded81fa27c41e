-- ===== src/Filter.antt =====
-- agent/alert_filter.py and agent/gitops.py: alerts that are dropped before anything is spent.
-- Of a GitOps reference, the detail labels that only the prompt shows are left out.
use llopster.Base.{
  Option, none, some, List, [], ◌∷◌, ◌++◌, Bool, true, false, ◌&&◌, ◌||◌, not, if◌then◌else◌,
  is_empty, is_some, map, filter, Text, lit, text_eq, member, strip, lower, split_on, ends_with,
}
use llopster.Alerts.{ParsedAlert, get, or_empty, or_none, alert_label}
use llopster.Messages.{
  Message, not_firing, informational, ignored_alertname, suspended_object, unmapped_service,
}
use llopster.Services.{Registry, get_service}

pub record GitOpsResourceRef : Type 0 where
  pub kind : Text
  pub group : Text
  pub name : Text
  pub namespace : Option Text
  pub version : Option Text
  pub ready : Option Bool
  pub suspended : Bool
  pub revision : Option Text

abbrev condition : Text → Option Bool
condition value =
    if text_eq value (lit "true")
    then some true
    else if text_eq value (lit "false")
    then some false
    else none

unfoldable pub gitops_ref_from_alert : ParsedAlert → Option GitOpsResourceRef
unfolding alert_label get
gitops_ref_from_alert alert =
    let group = or_empty (get (lit "customresource_group") alert.labels) in
    let kind = or_empty (get (lit "customresource_kind") alert.labels) in
    let name = or_empty (get (lit "name") alert.labels) in
    if not (ends_with group (lit ".toolkit.fluxcd.io")) || is_empty kind || is_empty name
    then none
    else some (record {
      kind = kind;
      group = group;
      name = name;
      namespace = alert_label alert (lit "namespace");
      version = or_none (get (lit "customresource_version") alert.labels);
      ready = condition (lower (or_empty (get (lit "ready") alert.labels)));
      suspended = text_eq (lower (or_empty (get (lit "suspended") alert.labels))) (lit "true");
      revision = or_none (get (lit "revision") alert.labels);
    })

abbrev object_path : Option Text → Text → Text
object_path none name = name
object_path (some namespace) name =
    if is_empty namespace then name else namespace ++ (lit "/" ++ name)

-- `display`
unfoldable pub display : GitOpsResourceRef → Text
display ref = lit "Flux " ++ (ref.kind ++ (lit " " ++ object_path ref.namespace ref.name))

abbrev pub default_ignore_alertnames : List Text
default_ignore_alertnames =
    lit "AlwaysFiringDemoAlert"
    ∷ lit "PrometheusTargetDown"
    ∷ lit "Watchdog"
    ∷ lit "InfoInhibitor"
    ∷ []

abbrev pub ignore_severities : List Text
ignore_severities = lit "info" ∷ lit "informational" ∷ lit "none" ∷ []

-- `{p.strip() for p in names if p.strip()}`
abbrev pub stripped : List Text → List Text
stripped names = filter (λ n. not (is_empty n)) (map strip names)

unfoldable pub parse_extra_ignore_setting : Option Text → List Text
parse_extra_ignore_setting none = []
parse_extra_ignore_setting (some raw) = if is_empty raw then [] else stripped (split_on b',' raw)

-- The object that the alert names is suspended.
unfoldable pub suspended_ref : ParsedAlert → Option GitOpsResourceRef
unfolding gitops_ref_from_alert
suspended_ref alert = elim (gitops_ref_from_alert alert) [
  | none ↦ none
  | some ref ↦ if ref.suspended then some ref else none
]

-- The reason to skip, if there is one.
unfoldable pub should_skip : ParsedAlert → Registry → List Text → Option Message
unfolding suspended_ref display get_service
should_skip alert services extra_ignore =
    if not (text_eq alert.status (lit "firing"))
    then some (not_firing alert.status)
    else if not (is_empty alert.severity) && member (lower alert.severity) ignore_severities
    then some (informational alert.severity)
    else if member alert.alertname (default_ignore_alertnames ++ stripped extra_ignore)
    then some (ignored_alertname alert.alertname)
    else elim (suspended_ref alert) [
      | some ref ↦ some (suspended_object (display ref))
      | none ↦
          if is_some (get_service alert.service services)
          then none
          else some (unmapped_service alert.service)
    ]
