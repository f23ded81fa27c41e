-- ===== src/Cluster/FluxPaths.antt =====
-- integrations/flux_client.py: the paths of the requests for Flux objects.
use mathlib.Core.Path.{subst}
use llopster.Base.{
  ◌≡◌, refl, sym, ap, ◌∙◌, some, List, [], ◌∷◌, ◌++◌, All, append_assoc, Text, lit, text_eq,
  Bool-cases, inl, inr, some_inj, join_with,
}
use llopster.Json.{Json, null, bool, num, str, arr, obj, Fields, as_dict}
use llopster.Cluster.Client.{in_namespace, api_root}
use llopster.Cluster.Flux.{FluxKind, flux_kinds, find}
use llopster.Cluster.State.{Collector}
use llopster.Cluster.Permitted.{
  FluxPlural, helm_release, kustomization, git_repository, oci_repository, helm_repository,
  helm_chart, bucket, group_path,
}

abbrev pub IsKnown : Text × FluxKind → Type 0
IsKnown e = FluxPlural e.1.group e.1.plural

pub flux_kinds-IsKnown : All IsKnown flux_kinds
unfolding lit
flux_kinds-IsKnown = (
  helm_release,
  (
    kustomization,
    (git_repository, (oci_repository, (helm_repository, (helm_chart, (bucket, tt))))),
  ),
)

pub find-IsKnown :
    (kind : Text) (k : FluxKind) (l : List (Text × FluxKind))
    → All IsKnown l
    → find kind l ≡ some k
    → FluxPlural k.group k.plural
unfolding find
find-IsKnown kind k [] h e = cc
find-IsKnown kind k ((j, v) ∷ rest) h e = elim (Bool-cases (text_eq j kind)) [
  | inl t ↦ subst (λ (x : FluxKind). FluxPlural x.group x.plural) (some_inj (sym (rw t) ∙ e)) h.0
  | inr t ↦ find-IsKnown kind k rest h.1 (sym (rw t) ∙ e)
]

flux_root :
    (g p v : Text) → FluxPlural g p → api_root (g ++ (b'/' ∷ v)) ≡ lit "/apis/" ++ (g ++ (b'/' ∷ v))
unfolding lit text_eq
flux_root _ _ v helm_release = refl
flux_root _ _ v kustomization = refl
flux_root _ _ v git_repository = refl
flux_root _ _ v oci_repository = refl
flux_root _ _ v helm_repository = refl
flux_root _ _ v helm_chart = refl
flux_root _ _ v bucket = refl

pub flux_path :
    (c : Collector) (g p v s t : Text)
    → FluxPlural g p
    → in_namespace (api_root (g ++ (b'/' ∷ v))) s ++ (b'/' ∷ (p ++ (b'/' ∷ t)))
      ≡ group_path c g v s (p ∷ t ∷ [])
unfolding lit join_with
flux_path c g p v s t k = rw (flux_root g p v k) (simp append_assoc)

pub obj_of_as_dict : (v : Json) (fs : Fields) → as_dict v ≡ some fs → v ≡ obj fs
obj_of_as_dict null fs h = cc
obj_of_as_dict (bool b) fs h = cc
obj_of_as_dict (num n) fs h = cc
obj_of_as_dict (str s) fs h = cc
obj_of_as_dict (arr xs) fs h = cc
obj_of_as_dict (obj gs) fs h = ap obj (some_inj h)
