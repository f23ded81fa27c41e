-- ===== src/Cluster/FluxObjects.antt =====
-- integrations/flux_client.py: the parsers of the kinds of Flux objects.
use llopster.Base.{
  ◌≡◌, refl, Option-cases, inl, inr, ℕ, Option, none, some, List, [], ◌∷◌, ◌++◌, if◌then◌else◌,
  take, length, Text, lit, text_eq, is_empty,
}
use llopster.Json.{
  Json, Fields, lookup, is_truthy, truthy, dict_or_empty, list_or_empty, text_or_empty,
  text_or_none, iterate, dicts,
}
use llopster.Cluster.Objects.{Library, FluxObjectState}
use llopster.Cluster.Partial.{◌>>=◌, traverse, put, IfSome, bind-IfSome}
use llopster.Cluster.Parse.{dict_at}
use llopster.Cluster.Urls.{strip_url_credentials}
use llopster.Cluster.FluxParse.{
  Projection, flux_conditions, flux_ref, add_facts, chart_of, value_refs, release, deployed,
  if_true, shown,
}

-- a fact that is there if its value is true
abbrev fact_if : Option Json → Text → Text → List (Text × Text) → List (Text × Text)
fact_if value key text facts = if is_truthy value then put key text facts else facts

abbrev max_releases : ℕ
max_releases = 3

abbrev pub release_keys : List Text
release_keys = lit "releaseName" ∷ lit "targetNamespace" ∷ lit "storageNamespace" ∷ []

abbrev failure_keys : List Text
failure_keys =
    lit "failures"
    ∷ lit "installFailures"
    ∷ lit "upgradeFailures"
    ∷ lit "lastAttemptedReleaseAction"
    ∷ []

unfoldable pub parse_helmrelease : Library → Text → Fields → Fields → Option Projection
unfolding chart_of list_or_empty lookup lit dicts text_or_none text_or_empty dict_or_empty is_truthy
    add_facts put
parse_helmrelease library ns spec status = do
  chart ← chart_of library ns spec status
  entries ← list_or_empty (lookup (lit "history") status)
  let history = dicts entries
  releases ← traverse release (take max_releases history)
  applied ← text_or_none (
      if_true (lookup (lit "chartVersion") (deployed history))
        (lookup (lit "lastAppliedRevision") status))
  attempted ← text_or_none (lookup (lit "lastAttemptedRevision") status)
  drift ← dict_at (lit "driftDetection") spec
  mode ← text_or_empty (lookup (lit "mode") drift)
  references ← list_or_empty (lookup (lit "valuesFrom") spec)
  let named = add_facts library [] release_keys spec chart.1
  let drifting = put (lit "driftDetection") (if is_empty mode then lit "disabled" else mode) named
  some (record {
    applied_revision = applied;
    attempted_revision = attempted;
    source = chart.0;
    facts =
        fact_if (lookup (lit "values") spec) (lit "inline values") (lit "present (withheld)")
          (add_facts library [] failure_keys status drifting);
    releases = releases;
    value_refs = value_refs library (dicts references);
  })

-- `len(value)`
abbrev length_of : Option Json → Option ℕ
length_of none = none
length_of (some v) = elim (iterate v) [ none ↦ none | some xs ↦ some (length xs) ]

abbrev prune_fact : Option Json → List (Text × Text) → List (Text × Text)
prune_fact none facts = facts
prune_fact (some v) facts = put (lit "prune") (if truthy v then lit "true" else lit "false") facts

abbrev substitute_fact : Library → Option Json → List (Text × Text) → Option (List (Text × Text))
substitute_fact library value facts =
    if is_truthy value
    then (do
      count ← length_of value
      some (
          put (lit "inline substitutions")
            (library.show_nat count ++ lit " variable(s) (values withheld)") facts))
    else some facts

unfoldable pub parse_kustomization : Library → Text → Fields → Fields → Option Projection
unfolding flux_ref lookup lit text_or_none dict_or_empty list_or_empty add_facts put truthy
    is_truthy dicts
parse_kustomization library ns spec status = do
  source ← flux_ref ns (lookup (lit "sourceRef") spec)
  applied ← text_or_none (lookup (lit "lastAppliedRevision") status)
  attempted ← text_or_none (lookup (lit "lastAttemptedRevision") status)
  let placed = add_facts library [] (lit "path" ∷ lit "targetNamespace" ∷ []) spec []
  post_build ← dict_at (lit "postBuild") spec
  references ← list_or_empty (lookup (lit "substituteFrom") post_build)
  facts ←
      substitute_fact library (lookup (lit "substitute") post_build)
        (prune_fact (lookup (lit "prune") spec) placed)
  some (record {
    applied_revision = applied;
    attempted_revision = attempted;
    source = source;
    facts = facts;
    releases = [];
    value_refs = value_refs library (dicts references);
  })

abbrev ref_keys : List Text
ref_keys = lit "branch" ∷ lit "tag" ∷ lit "semver" ∷ lit "commit" ∷ lit "name" ∷ lit "digest" ∷ []

abbrev pub bucket_keys : List Text
bucket_keys = lit "bucketName" ∷ lit "provider" ∷ lit "type" ∷ []

abbrev chart_facts : Library → Fields → Fields → List (Text × Text) → List (Text × Text)
chart_facts library spec status facts = add_facts library [] (lit "observedChartName" ∷ []) status (
    fact_if (lookup (lit "version") spec) (lit "version constraint")
      (shown library (lookup (lit "version") spec))
      (add_facts library [] (lit "chart" ∷ []) spec facts))

-- GitRepository, OCIRepository, HelmRepository, Bucket and HelmChart.
unfoldable pub parse_source : Library → Text → Text → Fields → Fields → Option Projection
unfolding flux_ref lookup lit text_or_none dict_or_empty add_facts put is_truthy
    strip_url_credentials text_eq
parse_source library kind ns spec status = do
  artifact ← dict_at (lit "artifact") status
  revision ← text_or_none (lookup (lit "revision") artifact)
  ref ← dict_at (lit "ref") spec
  let located =
      fact_if (lookup (lit "url") spec) (lit "url")
        (strip_url_credentials library (shown library (lookup (lit "url") spec))) []
  let facts =
      add_facts library [] bucket_keys spec (add_facts library (lit "ref.") ref_keys ref located)
  source ←
      (if text_eq kind (lit "HelmChart")
        then flux_ref ns (lookup (lit "sourceRef") spec)
        else some none)
  some (record {
    applied_revision = revision;
    attempted_revision = none;
    source = source;
    facts = if text_eq kind (lit "HelmChart") then chart_facts library spec status facts else facts;
    releases = [];
    value_refs = [];
  })

unfoldable pub parse_kind : Library → Text → Text → Fields → Fields → Option Projection
unfolding parse_helmrelease parse_kustomization parse_source text_eq lit
parse_kind library kind ns spec status =
    if text_eq kind (lit "HelmRelease")
    then parse_helmrelease library ns spec status
    else if text_eq kind (lit "Kustomization")
    then parse_kustomization library ns spec status
    else parse_source library kind ns spec status

-- `metadata.namespace` of an object
unfoldable pub own_namespace : Fields → Option Text
unfolding dict_or_empty text_or_empty lookup lit
own_namespace object = do
  meta ← dict_at (lit "metadata") object
  text_or_empty (lookup (lit "namespace") meta)

unfoldable pub parse_flux_object : Library → Text → Fields → Option FluxObjectState
unfolding own_namespace dict_or_empty text_or_empty lookup lit flux_conditions is_truthy parse_kind
parse_flux_object library kind object = do
  namespace ← own_namespace object
  meta ← dict_at (lit "metadata") object
  spec ← dict_at (lit "spec") object
  status ← dict_at (lit "status") object
  name ← text_or_empty (lookup (lit "name") meta)
  api_version ← text_or_empty (lookup (lit "apiVersion") object)
  conditions ← flux_conditions (lookup (lit "conditions") status)
  p ← parse_kind library kind namespace spec status
  some (record {
    kind = kind;
    name = name;
    namespace = namespace;
    api_version = api_version;
    suspended = is_truthy (lookup (lit "suspend") spec);
    conditions = conditions;
    applied_revision = p.applied_revision;
    attempted_revision = p.attempted_revision;
    source = p.source;
    facts = p.facts;
    releases = p.releases;
    value_refs = p.value_refs;
  })

-- What is projected keeps the namespace of the object.
pub parse_flux_object-namespace :
    (library : Library) (kind : Text) (object : Fields)
    → IfSome
        (λ state. own_namespace object ≡ some state.namespace)
        (parse_flux_object library kind object)
unfolding parse_flux_object
parse_flux_object-namespace library kind object = elim (Option-cases (own_namespace object)) [
  | inl e ↦ rw e tt
  | inr (ns, e) ↦ rw e (
      bind-IfSome _ (dict_at (lit "metadata") object) _ λ meta.
        bind-IfSome _ (dict_at (lit "spec") object) _ λ spec.
          bind-IfSome _ (dict_at (lit "status") object) _ λ status.
            bind-IfSome _ (text_or_empty (lookup (lit "name") meta)) _ λ name.
              bind-IfSome _ (text_or_empty (lookup (lit "apiVersion") object)) _ λ api_version.
                bind-IfSome _ (flux_conditions (lookup (lit "conditions") status)) _
                  λ conditions. bind-IfSome _ (parse_kind library kind ns spec status) _ λ p. refl)
]
