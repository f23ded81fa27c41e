-- ===== src/Github/Paths.antt =====
-- integrations/github_client.py: the path gates. A set of texts is a list.
pub mod Laws
use llopster.Base.{
  ℕ, Bool, true, false, ◌&&◌, ◌||◌, not, Option, none, some, List, [], ◌∷◌, ◌++◌, map, any, filter,
  is_empty, if◌then◌else◌, Text, lit, text_eq, member, starts_with, strip, lower, split_on,
  join_with,
}

-- `"/".join(parts)`
abbrev pub join_path : List Text → Text
join_path = join_with b'/'

abbrev pub protected_dir_components : List Text
protected_dir_components = lit ".github" ∷ lit ".circleci" ∷ lit ".buildkite" ∷ []

abbrev pub protected_basenames : List Text
protected_basenames =
    lit ".gitlab-ci.yml"
    ∷ lit ".travis.yml"
    ∷ lit "azure-pipelines.yml"
    ∷ lit "jenkinsfile"
    ∷ lit ".drone.yml"
    ∷ lit "bitbucket-pipelines.yml"
    ∷ lit "cloudbuild.yaml"
    ∷ lit ".woodpecker.yml"
    ∷ []

-- a segment that normalising keeps: `p and p != "."`
unfoldable pub is_segment : Text → Bool
is_segment p = not (is_empty p) && not (text_eq p (lit "."))

-- the segments of the normalised path
unfoldable pub path_segments : Text → List Text
unfolding is_segment
path_segments path = filter is_segment (split_on b'/' (strip path))

unfoldable pub normalize_repo_path : Text → Text
unfolding path_segments
normalize_repo_path path = join_path (path_segments path)

abbrev pub discovery_skip_dirs : List Text
discovery_skip_dirs =
    lit ".git"
    ∷ lit "node_modules"
    ∷ lit ".venv"
    ∷ lit "venv"
    ∷ lit "__pycache__"
    ∷ lit "dist"
    ∷ lit "build"
    ∷ []

-- `parts[:-1]`
abbrev pub init : List Text → List Text
init [] = []
init (part ∷ []) = []
init (part ∷ next ∷ parts) = part ∷ init (next ∷ parts)

-- `manifests` are the parts, relative to the root, of the files that `root.rglob("Chart.yaml")`
-- finds. The set is filled in the order in which they come.
discover_loop : List (List Text) → List Text → List Text
discover_loop [] roots = roots
discover_loop (manifest ∷ manifests) roots = discover_loop manifests (
    if any (λ part. member part discovery_skip_dirs) (init manifest)
    then roots
    else if member (join_path (init manifest)) roots
    then roots
    else roots ++ (join_path (init manifest) ∷ []))

unfoldable pub discover_chart_roots : Bool → List (List Text) → List Text
unfolding discover_loop
discover_chart_roots is_dir manifests = if is_dir then discover_loop manifests [] else []

-- The loop over `parts[:-1]`; `before` is `parts[:i]`.
unfoldable pub template_below_root : List Text → List Text → List Text → Bool
template_below_root roots before [] = false
template_below_root roots before (part ∷ []) = false
template_below_root roots before (part ∷ next ∷ parts) =
    (text_eq part (lit "templates") && member (join_path before) roots)
    || template_below_root roots (before ++ (part ∷ [])) (next ∷ parts)

-- `none` for the roots means that discovery could not run.
unfoldable pub is_chart_template : List Text → Option (List Text) → Bool
unfolding template_below_root
is_chart_template parts none = member (lit "templates") parts
is_chart_template parts (some roots) =
    if member (lit "templates") parts then template_below_root roots [] parts else false

-- `parts[-1]` of a list that is not empty
unfoldable pub last_segment : List Text → Text
last_segment [] = []
last_segment (part ∷ []) = part
last_segment (part ∷ next ∷ parts) = last_segment (next ∷ parts)

-- The tests behind the one for an empty path, on the parts of the normalised path.
unfoldable pub is_protected_parts : List Text → Option (List Text) → Bool
unfolding is_chart_template last_segment
is_protected_parts parts roots =
    member (lit "..") parts
    || is_chart_template parts roots
    || any (λ c. member c (map lower parts)) protected_dir_components
    || member (last_segment (map lower parts)) protected_basenames
    || starts_with (last_segment (map lower parts)) (lit "dockerfile")
    || text_eq (last_segment (map lower parts)) (lit "containerfile")
    || starts_with (last_segment (map lower parts)) (lit "docker-compose")

unfoldable pub is_protected_path : Text → Option (List Text) → Bool
unfolding normalize_repo_path is_protected_parts
is_protected_path path roots =
    if is_empty (normalize_repo_path path)
    then true
    else is_protected_parts (split_on b'/' (normalize_repo_path path)) roots
