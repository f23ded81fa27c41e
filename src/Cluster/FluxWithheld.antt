-- ===== src/Cluster/FluxWithheld.antt =====
-- integrations/flux_client.py: what the projection of a Flux object withholds.
use llopster.Base.{
  ◌≡◌, refl, some, List, [], ◌∷◌, false, Bool-cases, inl, inr, All, Text, lit, text_eq,
}
use llopster.Json.{Fields, lookup, is_truthy}
use llopster.Cluster.Objects.{Library}
use llopster.Cluster.Parse.{dict_at}
use llopster.Cluster.FluxParse.{add_facts, chart_of}
use llopster.Cluster.FluxObjects.{
  parse_helmrelease, parse_kustomization, parse_source, parse_kind, parse_flux_object,
  own_namespace, release_keys, bucket_keys,
}

-- Two specs that differ only in the inline values, which both have or both lack.
pub record AreAlike (s t : Fields) : Type 0 where
  pub others : (k : Text) → text_eq k (lit "values") ≡ false → lookup k s ≡ lookup k t
  pub given : is_truthy (lookup (lit "values") s) ≡ is_truthy (lookup (lit "values") t)

module _ (library : Library) (s t : Fields) (alike : AreAlike s t) where
  add_facts-AreAlike :
      (prefix : Text) (keys : List Text) (facts : List (Text × Text))
      → All (λ k. text_eq k (lit "values") ≡ false) keys
      → add_facts library prefix keys s facts ≡ add_facts library prefix keys t facts
  unfolding add_facts
  add_facts-AreAlike prefix [] facts h = refl
  add_facts-AreAlike prefix (k ∷ rest) facts h =
      rw (alike.others k h.0) (add_facts-AreAlike prefix rest _ h.1)

  chart_of-AreAlike :
      (ns : Text) (status : Fields) → chart_of library ns s status ≡ chart_of library ns t status
  unfolding chart_of text_eq lit
  chart_of-AreAlike ns status =
      rw (alike.others (lit "chartRef") refl, alike.others (lit "chart") refl) refl

  release_facts :
      (facts : List (Text × Text))
      → add_facts library [] release_keys s facts ≡ add_facts library [] release_keys t facts
  unfolding text_eq lit
  release_facts facts = add_facts-AreAlike [] release_keys facts (refl, (refl, (refl, tt)))

  parse_helmrelease-AreAlike :
      (ns : Text) (status : Fields)
      → parse_helmrelease library ns s status ≡ parse_helmrelease library ns t status
  unfolding parse_helmrelease text_eq lit
  parse_helmrelease-AreAlike ns status =
      rw
        (
          chart_of-AreAlike ns status,
          alike.others (lit "driftDetection") refl,
          alike.others (lit "valuesFrom") refl,
          alike.given,
        )
        (simp release_facts)

  place_facts :
      (facts : List (Text × Text))
      → add_facts library [] (lit "path" ∷ lit "targetNamespace" ∷ []) s facts
        ≡ add_facts library [] (lit "path" ∷ lit "targetNamespace" ∷ []) t facts
  unfolding text_eq lit
  place_facts facts = add_facts-AreAlike [] _ facts (refl, (refl, tt))

  parse_kustomization-AreAlike :
      (ns : Text) (status : Fields)
      → parse_kustomization library ns s status ≡ parse_kustomization library ns t status
  unfolding parse_kustomization text_eq lit
  parse_kustomization-AreAlike ns status =
      rw
        (
          alike.others (lit "sourceRef") refl,
          alike.others (lit "postBuild") refl,
          alike.others (lit "prune") refl,
          place_facts [],
        )
        refl

  bucket_facts :
      (facts : List (Text × Text))
      → add_facts library [] bucket_keys s facts ≡ add_facts library [] bucket_keys t facts
  unfolding text_eq lit
  bucket_facts facts = add_facts-AreAlike [] bucket_keys facts (refl, (refl, (refl, tt)))

  chart_fact :
      (facts : List (Text × Text))
      → add_facts library [] (lit "chart" ∷ []) s facts
        ≡ add_facts library [] (lit "chart" ∷ []) t facts
  unfolding text_eq lit
  chart_fact facts = add_facts-AreAlike [] _ facts (refl, tt)

  parse_source-AreAlike :
      (kind ns : Text) (status : Fields)
      → parse_source library kind ns s status ≡ parse_source library kind ns t status
  unfolding parse_source text_eq lit
  parse_source-AreAlike kind ns status =
      rw
        (
          alike.others (lit "ref") refl,
          alike.others (lit "url") refl,
          alike.others (lit "version") refl,
          alike.others (lit "sourceRef") refl,
        )
        (simp (bucket_facts, chart_fact))

  parse_kind-AreAlike :
      (kind ns : Text) (status : Fields)
      → parse_kind library kind ns s status ≡ parse_kind library kind ns t status
  unfolding parse_kind
  parse_kind-AreAlike kind ns status = elim (Bool-cases (text_eq kind (lit "HelmRelease"))) [
    | inl e ↦ rw e (parse_helmrelease-AreAlike ns status)
    | inr e ↦ elim (Bool-cases (text_eq kind (lit "Kustomization"))) [
      | inl f ↦ rw (e, f) (parse_kustomization-AreAlike ns status)
      | inr f ↦ rw (e, f) (parse_source-AreAlike kind ns status)
    ]
  ]

-- Two objects that are the same but for the inline values of their specs.
pub record AreAlikeObjects (o p : Fields) : Type 0 where
  pub others : (k : Text) → text_eq k (lit "spec") ≡ false → lookup k o ≡ lookup k p
  pub spec_o : Fields
  pub spec_p : Fields
  pub reads_o : dict_at (lit "spec") o ≡ some spec_o
  pub reads_p : dict_at (lit "spec") p ≡ some spec_p
  pub alike : AreAlike spec_o spec_p

-- Two objects of a kind that differ only in the inline values of their specs, `spec.values`, which
-- both have or both lack, are projected to the same state: the values are withheld.
pub parse_flux_object-AreAlike :
    (library : Library) (kind : Text) (o p : Fields)
    → AreAlikeObjects o p
    → parse_flux_object library kind o ≡ parse_flux_object library kind p
unfolding parse_flux_object own_namespace text_eq lit
parse_flux_object-AreAlike library kind o p h =
    rw
      (
        h.others (lit "metadata") refl,
        h.others (lit "status") refl,
        h.others (lit "apiVersion") refl,
        h.reads_o,
        h.reads_p,
        h.alike.others (lit "suspend") refl,
      )
      (simp (parse_kind-AreAlike library h.spec_o h.spec_p h.alike kind))
