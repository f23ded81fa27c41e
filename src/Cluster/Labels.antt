-- ===== src/Cluster/Labels.antt =====
-- The labels and owner references of an object, and the order of pods by their health:
-- integrations/kubernetes_client.py and agent/cluster_state.py.
use llopster.Base.{
  ◌+◌, ◌-◌, suc, Option, none, some, List, [], ◌∷◌, ◌++◌, Bool, true, false, ◌&&◌, ◌||◌, not,
  if◌then◌else◌, ltb, ◌==◌, any, map, Text, lit, text_eq, starts_with, is_empty,
}
use llopster.Base.Int.{ℤ, pos, negsuc, ltb_int}
use llopster.Json.{
  Json, str, obj, Fields, end, field, lookup, is_truthy, as_dict, dict_or_empty, list_or_empty,
  int_or, dicts,
}
use llopster.Cluster.Objects.{Library}
use llopster.Cluster.Partial.{◌>>=◌, traverse}
use llopster.Cluster.Parse.{dict_at}

-- `str(value)`
abbrev pub to_str : Library → Json → Text
to_str library (str s) = s
to_str library v = library.str_of v

abbrev pub gitops_label_prefixes : List Text
gitops_label_prefixes = lit "helm.toolkit.fluxcd.io/" ∷ lit "kustomize.toolkit.fluxcd.io/" ∷ []

abbrev kept_labels : Library → Fields → List (Text × Text)
kept_labels library end = []
kept_labels library (field k v fs) =
    if any (starts_with k) gitops_label_prefixes
    then (k, to_str library v) ∷ kept_labels library fs
    else kept_labels library fs

unfoldable pub gitops_labels : Library → Fields → Option (List (Text × Text))
unfolding dict_or_empty lookup lit starts_with
gitops_labels library object = do
  meta ← dict_at (lit "metadata") object
  labels ← dict_at (lit "labels") meta
  some (kept_labels library labels)

abbrev first_controller : List Fields → Option Fields
first_controller [] = none
first_controller (raw ∷ rest) =
    if is_truthy (lookup (lit "controller") raw) then some raw else first_controller rest

abbrev or_first : Option Fields → List Fields → Option Fields
or_first (some raw) refs = some raw
or_first none [] = none
or_first none (raw ∷ rest) = some raw

-- `_controller_ref`: the reference of the controller, or else the first one.
unfoldable pub controller_ref : Fields → Option (Option Fields)
unfolding dict_or_empty list_or_empty lookup lit dicts is_truthy
controller_ref object = do
  meta ← dict_at (lit "metadata") object
  refs ← list_or_empty (lookup (lit "ownerReferences") meta)
  some (or_first (first_controller (dicts refs)) (dicts refs))

-- `a <= b`, for two texts
unfoldable pub text_leb : Text → Text → Bool
text_leb [] t = true
text_leb (c ∷ s) [] = false
text_leb (c ∷ s) (d ∷ t) = ltb c d || (c == d && text_leb s t)

abbrev insert_label : Text → Json → List (Text × Json) → List (Text × Json)
insert_label k v [] = (k, v) ∷ []
insert_label k v ((j, w) ∷ rest) =
    if text_leb k j then (k, v) ∷ (j, w) ∷ rest else (j, w) ∷ insert_label k v rest

abbrev sorted_labels : Fields → List (Text × Json)
sorted_labels end = []
sorted_labels (field k v fs) = insert_label k v (sorted_labels fs)

abbrev join_labels : Library → List (Text × Json) → Text
join_labels library [] = []
join_labels library ((k, v) ∷ []) = k ++ (b'=' ∷ to_str library v)
join_labels library ((k, v) ∷ next ∷ rest) =
    k ++ (b'=' ∷ (to_str library v ++ (b',' ∷ join_labels library (next ∷ rest))))

abbrev selector_of : Library → Option Json → Option Text
selector_of library (some (obj (field k v fs))) =
    some (join_labels library (sorted_labels (field k v fs)))
selector_of library _ = none

-- `_match_labels`: the selector of a workload.
unfoldable pub match_labels : Library → Fields → Option (Option Text)
unfolding dict_or_empty lookup lit text_leb
match_labels library workload = do
  spec ← dict_at (lit "spec") workload
  selector ← dict_at (lit "selector") spec
  some (selector_of library (lookup (lit "matchLabels") selector))

abbrev add_int : ℤ → ℤ → ℤ
add_int (pos a) (pos b) = pos (a + b)
add_int (pos a) (negsuc b) = if ltb b a then pos (a - suc b) else negsuc (b - a)
add_int (negsuc a) (pos b) = if ltb a b then pos (b - suc a) else negsuc (a - b)
add_int (negsuc a) (negsuc b) = negsuc (suc (a + b))

abbrev sum_int : List ℤ → ℤ
sum_int [] = pos 0
sum_int (n ∷ ns) = add_int n (sum_int ns)

abbrev has_phase : Option Json → Bool
has_phase (some (str phase)) = text_eq phase (lit "Running") || text_eq phase (lit "Succeeded")
has_phase _ = false

-- The pod is healthy, and the number of its restarts.
unfoldable pub pod_health_rank : Fields → Option (Bool × ℤ)
unfolding dict_or_empty list_or_empty lookup lit dicts is_truthy int_or text_eq
pod_health_rank object = do
  status ← dict_at (lit "status") object
  entries ← list_or_empty (lookup (lit "containerStatuses") status)
  counts ← traverse (λ s. int_or (pos 0) (lookup (lit "restartCount") s)) (dicts entries)
  let restarts = sum_int counts
  some (
    has_phase (lookup (lit "phase") status)
        && not (is_empty (dicts entries))
        && not (any (λ s. not (is_truthy (lookup (lit "ready") s))) (dicts entries))
        && not (ltb_int restarts (pos 0))
        && not (ltb_int (pos 0) restarts),
    restarts,
  )

-- The first key is not above the second one: the unhealthy first, then the more restarts.
unfoldable pub rank_leb : Bool × ℤ → Bool × ℤ → Bool
rank_leb (false, m) (true, n) = true
rank_leb (true, m) (false, n) = false
rank_leb (false, m) (false, n) = not (ltb_int m n)
rank_leb (true, m) (true, n) = not (ltb_int m n)

abbrev Ranked : Type 0
Ranked = (Bool × ℤ) × Fields

unfoldable pub insert_pod : Ranked → List Ranked → List Ranked
unfolding rank_leb
insert_pod p [] = p ∷ []
insert_pod p (q ∷ rest) = if rank_leb p.0 q.0 then p ∷ q ∷ rest else q ∷ insert_pod p rest

unfoldable pub insertion_sort : List Ranked → List Ranked
unfolding insert_pod
insertion_sort [] = []
insertion_sort (p ∷ rest) = insert_pod p (insertion_sort rest)

-- `pods.sort(key=_pod_health_rank)`; the sort is stable.
unfoldable pub sort_pods : List Json → Option (List Fields)
unfolding pod_health_rank insertion_sort
sort_pods pods = do
  objects ← traverse as_dict pods
  ranks ← traverse (λ o. pod_health_rank o >>= λ rank. some (rank, o)) objects
  some (map (λ p. p.1) (insertion_sort ranks))
