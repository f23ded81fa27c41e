-- ===== src/Cluster/Flux.antt =====
-- integrations/flux_client.py: `FluxClient`, with the versions that it remembers.
use llopster.Base.{
  ℕ, ◌-◌, Option, none, some, List, [], ◌∷◌, ◌++◌, Bool, false, ◌&&◌, ◌||◌, not, if◌then◌else◌, ltb,
  ◌==◌, drop, Text, lit, text_eq, starts_with, is_empty,
}
use llopster.Json.{Json, as_dict}
use llopster.Cluster.Objects.{Library, FluxObjectState}
use llopster.Cluster.Partial.{put}
use llopster.Cluster.FluxParse.{served_version}
use llopster.Cluster.Session.{
  Cached, Server, flux_not_installed, unexpected, M, pure, fail, lift, tick, remembered, remember,
  ◌>>=◌, ◌>>◌,
}
use llopster.Cluster.Client.{chomp, get_json, get_namespaced}
use llopster.Cluster.FluxObjects.{parse_flux_object}

pub record FluxKind : Type 0 where
  pub group : Text
  pub plural : Text

abbrev helm : Text
helm = lit "helm.toolkit.fluxcd.io"

abbrev source : Text
source = lit "source.toolkit.fluxcd.io"

abbrev pub flux_kinds : List (Text × FluxKind)
flux_kinds =
    (lit "HelmRelease", record { group = helm; plural = lit "helmreleases" })
    ∷ (
      lit "Kustomization",
      record { group = lit "kustomize.toolkit.fluxcd.io"; plural = lit "kustomizations" },
    )
    ∷ (lit "GitRepository", record { group = source; plural = lit "gitrepositories" })
    ∷ (lit "OCIRepository", record { group = source; plural = lit "ocirepositories" })
    ∷ (lit "HelmRepository", record { group = source; plural = lit "helmrepositories" })
    ∷ (lit "HelmChart", record { group = source; plural = lit "helmcharts" })
    ∷ (lit "Bucket", record { group = source; plural = lit "buckets" })
    ∷ []

-- `d.get(key)`
unfoldable pub find {ℓ} : {A : Type ℓ} → Text → List (Text × A) → Option A
unfolding text_eq
find key [] = none
find key ((k, v) ∷ rest) = if text_eq k key then some v else find key rest

abbrev skip_digits : Library → Text → Text
skip_digits library [] = []
skip_digits library (c ∷ s) = if library.is_decimal c then skip_digits library s else c ∷ s

abbrev starts_digit : Library → Text → Bool
starts_digit library [] = false
starts_digit library (c ∷ s) = library.is_decimal c

abbrev all_digits : Library → Text → Bool
all_digits library s = starts_digit library s && is_empty (skip_digits library s)

-- what may stand behind the major version
abbrev is_stage : Library → Text → Bool
is_stage library s =
    is_empty s
    || (starts_with s (lit "alpha") && all_digits library (drop 5 s))
    || (starts_with s (lit "beta") && all_digits library (drop 4 s))

abbrev matches_version : Library → Text → Bool
matches_version library [] = false
matches_version library (c ∷ s) =
    c == b'v' && starts_digit library s && is_stage library (skip_digits library s)

-- `_API_VERSION.match(version)`
unfoldable pub is_api_version : Library → Text → Bool
unfolding chomp starts_with lit
is_api_version library version = matches_version library (chomp version)

-- in microseconds
abbrev pub discovery_ttl : ℕ
discovery_ttl = 600000000

module _ (library : Library) (server : Server) where
  -- `self._versions[group] = (version, self._clock())`
  unfoldable pub keep_version : Text → Option Text → M (Option Text)
  unfolding ◌>>=◌ put
  keep_version group version = do
    now ← tick server
    versions ← remembered
    remember (put group (record { version = version; fetched_at = now }) versions)
    pure version

  unfoldable pub discover : Text → M (Option Text)
  unfolding get_json ◌>>=◌ lit served_version keep_version
  discover group = do
    payload ← get_json library server (lit "/apis/" ++ group) []
    version ← lift (served_version payload)
    keep_version group version

  unfoldable pub cached_version : Text → Option Cached → M (Option Text)
  unfolding discover ◌>>=◌
  cached_version group none = discover group
  cached_version group (some cached) = do
    now ← tick server
    if ltb (now - cached.fetched_at) discovery_ttl then pure cached.version else discover group

  abbrev pub or_not_installed : Text → Option Text → M Text
  or_not_installed group none = fail (flux_not_installed group)
  or_not_installed group (some version) =
      if is_empty version then fail (flux_not_installed group) else pure version

  unfoldable pub preferred_version : Text → M Text
  unfolding cached_version ◌>>=◌ find
  preferred_version group = do
    versions ← remembered
    version ← cached_version group (find group versions)
    or_not_installed group version

  -- The version of the alert if it looks like one, or else the preferred one.
  unfoldable pub version_for : Text → Option Text → M Text
  unfolding preferred_version is_api_version ◌>>=◌
  version_for group none = preferred_version group
  version_for group (some version) =
      if not (is_empty version) && is_api_version library version
      then pure version
      else preferred_version group

  abbrev pub parsed : Text → Option Json → M (Option FluxObjectState)
  parsed kind none = pure none
  parsed kind (some object) = do
    fields ← lift (as_dict object)
    state ← lift (parse_flux_object library kind fields)
    pure (some state)

  unfoldable pub get_flux_object : Text → Text → Text → Option Text → M (Option FluxObjectState)
  unfolding version_for get_namespaced ◌>>=◌ find lit parse_flux_object
  get_flux_object kind namespace name version = elim (find kind flux_kinds) [
    | none ↦ fail unexpected
    | some k ↦ do
      v ← version_for k.group version
      object ← get_namespaced library server (k.group ++ (b'/' ∷ v)) k.plural namespace name
      parsed kind object
  ]
