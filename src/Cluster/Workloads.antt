-- ===== src/Cluster/Workloads.antt =====
-- agent/cluster_state.py: the workloads that an alert can name.
use mathlib.Core.Path.{subst}
use llopster.Base.{
  All, ◌≡◌, refl, some, List, [], ◌∷◌, Text, lit, Option-cases, inl, inr, sym, ◌∙◌, some_inj,
}
use llopster.Alerts.{ParsedAlert}
use llopster.Cluster.State.{Workload, workload_labels, find_workload, label_of}
use llopster.Cluster.Permitted.{deployment, stateful_set, daemon_set, job}
use llopster.Cluster.Owners.{IsKind}

abbrev pub IsKnown : Text × Workload → Type 0
IsKnown e = IsKind e.1.api_version e.1.plural

pub workload_labels-IsKnown : All IsKnown workload_labels
unfolding lit
workload_labels-IsKnown = (
  record { group = lit "apps"; version = lit "v1"; parts = refl; kind = deployment },
  (
    record { group = lit "apps"; version = lit "v1"; parts = refl; kind = stateful_set },
    (
      record { group = lit "apps"; version = lit "v1"; parts = refl; kind = daemon_set },
      (record { group = lit "batch"; version = lit "v1"; parts = refl; kind = job }, tt),
    ),
  ),
)

pub find_workload-IsKnown :
    (alert : ParsedAlert) (workload : Workload) (name : Text) (l : List (Text × Workload))
    → All IsKnown l
    → find_workload alert l ≡ some (workload, name)
    → IsKind workload.api_version workload.plural
unfolding find_workload
find_workload-IsKnown alert workload name [] h e = cc
find_workload-IsKnown alert workload name ((label, other) ∷ rest) h e =
    elim (Option-cases (label_of alert label)) [
      | inl n ↦ find_workload-IsKnown alert workload name rest h.1 (sym (rw (n, find_workload)) ∙ e)
      | inr (t, n) ↦
          let same : some (other, t) ≡ some (workload, name) = sym (rw (n, find_workload)) ∙ e in
          subst (λ (p : Workload × Text). IsKind p.0.api_version p.0.plural) (some_inj same) h.0
    ]
