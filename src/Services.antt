-- ===== src/Services.antt =====
-- services_registry.py: what is known of a service. The registry maps a name to its entry.
use llopster.Base.{
  Option, none, some, List, [], ◌∷◌, Bool, ◌||◌, if◌then◌else◌, is_empty, Text, lit, text_eq,
  member,
}
use llopster.Alerts.{get}

pub record VersionRef : Type 0 where
  pub repo : Option Text
  pub path : Option Text
  pub key : Option Text

pub record Delivery : Type 0 where
  pub mode : Text
  pub version_ref : Option VersionRef

abbrev pub indirect_delivery_modes : List Text
indirect_delivery_modes = lit "oci-chart" ∷ lit "image-build" ∷ []

unfoldable pub is_indirect : Delivery → Bool
is_indirect delivery = member delivery.mode indirect_delivery_modes

pub record ServiceConfig : Type 0 where
  pub name : Text
  pub codebase_path : Text
  pub github_repo : Text
  pub pack : Option Text
  pub delivery : Option Delivery

abbrev pub Registry : Type 0
Registry = List (Text × ServiceConfig)

unfoldable pub get_service : Text → Registry → Option ServiceConfig
unfolding get
get_service = get

abbrev path_in_repo : Text → Option Text → Option Text → Option Text
path_in_repo github_repo (some path) (some repo) =
    if is_empty path || is_empty repo
    then none
    else if text_eq repo github_repo
    then some path
    else none
path_in_repo github_repo _ _ = none

-- agent/processor.py, `_same_repo_version_ref_path`
unfoldable pub same_repo_version_ref_path : ServiceConfig → Option Text
unfolding is_indirect
same_repo_version_ref_path service = elim service.delivery [
  | none ↦ none
  | some delivery ↦
      if is_indirect delivery
      then elim delivery.version_ref [
        | none ↦ none
        | some ref ↦ path_in_repo service.github_repo ref.path ref.repo
      ]
      else none
]
