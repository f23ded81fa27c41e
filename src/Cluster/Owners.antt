-- ===== src/Cluster/Owners.antt =====
-- integrations/kubernetes_client.py: the walk along the owners of an object.
use mathlib.Core.Path.{subst}
use llopster.Base.{
  ℕ, suc, ◌≤◌, ◌≡◌, refl, sym, ◌∙◌, some, List, [], ◌∷◌, ◌++◌, Bool, true, false, ◌&&◌, All, Text,
  lit, text_eq, eq_of_text_eq, Bool-cases, inl, inr, some_inj, length, arith, length-append,
  any-append, text_eq_comm,
}
use llopster.Cluster.Objects.{OwnerRef}
use llopster.Cluster.Parse.{owner_plural, owner_kinds, find_plural}
use llopster.Cluster.Client.{is_seen}
use llopster.Cluster.Permitted.{
  Kind, replica_set, deployment, stateful_set, daemon_set, job, cron_job,
}

-- The group and the version in an API version of a kind with this plural.
pub record IsKind (api_version plural : Text) : Type 0 where
  pub group : Text
  pub version : Text
  pub parts : api_version ≡ group ++ (b'/' ∷ version)
  pub kind : Kind group version plural

abbrev IsKnown : Text × Text × Text → Type 0
IsKnown e = IsKind e.0 e.2

owner_kinds-IsKnown : All IsKnown owner_kinds
unfolding lit
owner_kinds-IsKnown = (
  record { group = lit "apps"; version = lit "v1"; parts = refl; kind = replica_set },
  (
    record { group = lit "apps"; version = lit "v1"; parts = refl; kind = deployment },
    (
      record { group = lit "apps"; version = lit "v1"; parts = refl; kind = stateful_set },
      (
        record { group = lit "apps"; version = lit "v1"; parts = refl; kind = daemon_set },
        (
          record { group = lit "batch"; version = lit "v1"; parts = refl; kind = job },
          (record { group = lit "batch"; version = lit "v1"; parts = refl; kind = cron_job }, tt),
        ),
      ),
    ),
  ),
)

find_plural-IsKind :
    (api_version kind plural : Text) (l : List (Text × Text × Text))
    → All IsKnown l
    → find_plural api_version kind l ≡ some plural
    → IsKind api_version plural
find_plural-IsKind api_version kind plural [] h e = cc
find_plural-IsKind api_version kind plural ((v, k, p) ∷ rest) h e =
    elim (Bool-cases (text_eq v api_version && text_eq k kind)) [
      | inl t ↦
          subst (λ q. IsKind api_version q) (some_inj (sym (rw t) ∙ e))
            (subst (λ w. IsKind w p) (eq_of_text_eq v api_version (left _ _ t)) h.0)
      | inr t ↦ find_plural-IsKind api_version kind plural rest h.1 (sym (rw t) ∙ e)
    ]
  where
    left : (a b : Bool) → (a && b) ≡ true → a ≡ true
    left true b h = refl
    left false b h = cc

pub owner_plural-IsKind :
    (api_version kind plural : Text)
    → owner_plural api_version kind ≡ some plural
    → IsKind api_version plural
unfolding owner_plural
owner_plural-IsKind api_version kind plural =
    find_plural-IsKind api_version kind plural owner_kinds owner_kinds-IsKnown

-- No owner stands twice.
abbrev pub AreDistinctOwners : List OwnerRef → Type 0
AreDistinctOwners [] = Unit
AreDistinctOwners (x ∷ xs) = (is_seen x xs ≡ false) × AreDistinctOwners xs

-- A chain that has at most so many owners, none of them twice.
pub record IsChain (bound : ℕ) (chain : List OwnerRef) : Type 0 where
  pub short : length chain ≤ bound
  pub distinct : AreDistinctOwners chain

same_owner_comm :
    (x y : OwnerRef)
    → (text_eq x.kind y.kind && text_eq x.name y.name)
      ≡ (text_eq y.kind x.kind && text_eq y.name x.name)
same_owner_comm x y = rw (text_eq_comm x.kind y.kind, text_eq_comm x.name y.name)

AreDistinctOwners-append :
    (chain : List OwnerRef) (ref : OwnerRef)
    → AreDistinctOwners chain
    → is_seen ref chain ≡ false
    → AreDistinctOwners (chain ++ (ref ∷ []))
AreDistinctOwners-append [] ref d h = (refl, tt)
AreDistinctOwners-append (x ∷ xs) ref d h = (
  rw
      (
        any-append (λ (r : OwnerRef). text_eq r.kind x.kind && text_eq r.name x.name) xs (ref ∷ []),
        d.0,
      )
      (ground (arith, same_owner_comm x ref)),
  AreDistinctOwners-append xs ref d.1 (ground arith),
)

pub IsChain-append :
    (bound : ℕ) (chain : List OwnerRef) (ref : OwnerRef)
    → IsChain bound chain
    → is_seen ref chain ≡ false
    → IsChain (suc bound) (chain ++ (ref ∷ []))
IsChain-append bound chain ref h n = record {
  short = let s = h.short in omega (arith, length-append chain (ref ∷ []));
  distinct = AreDistinctOwners-append chain ref h.distinct n;
}

pub IsChain-le : (m n : ℕ) (chain : List OwnerRef) → m ≤ n → IsChain m chain → IsChain n chain
IsChain-le m n chain l h = record { short = let s = h.short in omega arith; distinct = h.distinct }
