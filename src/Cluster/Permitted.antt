-- ===== src/Cluster/Permitted.antt =====
-- The requests that the collector may make, by their paths.
use llopster.Base.{
  ◌≤◌, ◌≡◌, List, [], ◌∷◌, ◌++◌, true, false, Text, lit, contains, is_empty, join_with, Without,
  Has, length,
}
use llopster.Cluster.Objects.{Library}
use llopster.Cluster.Session.{text, Request, Server, Session, ok}
use llopster.Cluster.Flux.{is_api_version, preferred_version}
use llopster.Cluster.State.{Collector, in_scope, flux_in_scope}

-- A name that can change neither the path nor the query that it stands in.
pub record IsName (s : Text) : Type 0 where
  pub full : is_empty s ≡ false
  pub short : length s ≤ 254
  pub no_slash : Without b'/' s
  pub no_query : Without b'?' s
  pub no_fragment : Without b'#' s
  pub no_escape : Without b'%' s
  pub no_parent : contains s (lit "..") ≡ false

-- Segments of a path, behind a slash each.
abbrev pub path_of : List Text → Text
path_of segments = join_with b'/' ([] ∷ segments)

-- The kinds that owners and workloads are looked up by: the version's two segments and the plural.
pub data Kind : Text → Text → Text → Type 0 where
  replica_set : Kind (lit "apps") (lit "v1") (lit "replicasets")
  deployment : Kind (lit "apps") (lit "v1") (lit "deployments")
  stateful_set : Kind (lit "apps") (lit "v1") (lit "statefulsets")
  daemon_set : Kind (lit "apps") (lit "v1") (lit "daemonsets")
  job : Kind (lit "batch") (lit "v1") (lit "jobs")
  cron_job : Kind (lit "batch") (lit "v1") (lit "cronjobs")

-- The group and the plural of the Flux kinds.
pub data FluxPlural : Text → Text → Type 0 where
  helm_release : FluxPlural (lit "helm.toolkit.fluxcd.io") (lit "helmreleases")
  kustomization : FluxPlural (lit "kustomize.toolkit.fluxcd.io") (lit "kustomizations")
  git_repository : FluxPlural (lit "source.toolkit.fluxcd.io") (lit "gitrepositories")
  oci_repository : FluxPlural (lit "source.toolkit.fluxcd.io") (lit "ocirepositories")
  helm_repository : FluxPlural (lit "source.toolkit.fluxcd.io") (lit "helmrepositories")
  helm_chart : FluxPlural (lit "source.toolkit.fluxcd.io") (lit "helmcharts")
  bucket : FluxPlural (lit "source.toolkit.fluxcd.io") (lit "buckets")

module _ (c : Collector) where
  abbrev pub core_path : Text → List Text → Text
  core_path ns rest = path_of (lit "api" ∷ lit "v1" ∷ lit "namespaces" ∷ ns ∷ rest)

  abbrev pub group_path : Text → Text → Text → List Text → Text
  group_path group version ns rest =
      path_of (lit "apis" ∷ group ∷ version ∷ lit "namespaces" ∷ ns ∷ rest)

  -- A namespace that the agent may read, of workloads or of Flux objects.
  abbrev pub IsOpen : Text → Type 0
  IsOpen ns = IsName ns × (flux_in_scope c ns ≡ true)

  abbrev pub IsWorkloads : Text → Type 0
  IsWorkloads ns = IsName ns × (in_scope c ns ≡ true)

module _ (library : Library) (server : Server) (c : Collector) where
  -- The version of a request for a Flux object: it looks like one, or the client of Flux prefers it
  -- for the group in some state, from the answers of the server and from what it remembers. The
  -- version of an alert has no part in the latter.
  pub data IsVersion (group version : Text) : Type 0 where
    checked : is_api_version library version ≡ true → IsVersion group version
    preferred :
        (s : Session)
        → (preferred_version library server group s).0 ≡ ok version
        → IsVersion group version

  -- Requests inside of a namespace of the scope; nodes only if all namespaces are in the scope; and
  -- the versions of the groups of Flux.
  pub data Permitted (request : Request) : Type 0 where
    pod :
        (ns name : Text)
        → IsWorkloads c ns
        → IsName name
        → request.path ≡ core_path c ns (lit "pods" ∷ name ∷ [])
        → Permitted request
    pods :
        (ns : Text)
        → IsWorkloads c ns
        → request.path ≡ core_path c ns (lit "pods" ∷ [])
        → Permitted request
    workload :
        (group version plural ns name : Text)
        → Kind group version plural
        → IsWorkloads c ns
        → IsName name
        → request.path ≡ group_path c group version ns (plural ∷ name ∷ [])
        → Permitted request
    claim :
        (ns name : Text)
        → IsWorkloads c ns
        → IsName name
        → request.path ≡ core_path c ns (lit "persistentvolumeclaims" ∷ name ∷ [])
        → Permitted request
    events :
        (ns name : Text)
        → IsOpen c ns
        → IsName name
        → request.path ≡ core_path c ns (lit "events" ∷ [])
        → Has (lit "fieldSelector", text (lit "involvedObject.name=" ++ name)) request.params
        → Permitted request
    node :
        (name : Text)
        → c.all_namespaces ≡ true
        → IsName name
        → request.path ≡ path_of (lit "api" ∷ lit "v1" ∷ lit "nodes" ∷ name ∷ [])
        → Permitted request
    group :
        (name plural : Text)
        → FluxPlural name plural
        → request.path ≡ path_of (lit "apis" ∷ name ∷ [])
        → Permitted request
    flux_object :
        (group version plural ns name : Text)
        → FluxPlural group plural
        → IsVersion group version
        → IsOpen c ns
        → IsName name
        → request.path ≡ group_path c group version ns (plural ∷ name ∷ [])
        → Permitted request
