-- ===== src/Scoring.antt =====
-- eval/scoring.py: the grade of a replayed run against the ground truth of a scenario. A reason is a
-- constructor for each text of the source. An empty error message or answer is as good as none.
pub mod Grades
use llopster.Base.{
  ℕ, ◌==◌, Option, none, some, List, [], ◌∷◌, ◌++◌, Bool, true, false, ◌&&◌, ◌||◌, not,
  if◌then◌else◌, is_empty, any, filter, map, length, Text, lit, text_eq, strip, lower, split_on,
  contains, member,
}
use llopster.Base.Int.{ℤ, pos, ltb_int}
use llopster.Messages.{Status, failed, Message}
use llopster.Store.{Run}

-- eval/corpus.py
pub record GroundTruth : Type 0 where
  pub expect_patch : Bool
  pub expected_files : List Text
  pub root_cause_keywords : List Text
  pub max_confidence : Option ℤ

pub data Label : Type 0 where
  correct partial wrong : Label

pub data Reason : Type 0 where
  no_run : Reason
  run_failed : Option Message → Reason
  wrong_diagnosis : Reason
  patched_expected_file : Reason
  patched_wrong_file : Reason
  located_without_patch : Reason
  no_actionable_patch : Status → Reason
  should_have_been_skipped : Reason
  rightly_skipped : Reason
  exceeds_ceiling : ℕ → ℤ → Reason
  unexplained : Reason
  flagged_uncertain : Reason
  withheld_patch : Reason

pub record ScenarioScore : Type 0 where
  pub scenario_id : Text
  pub label : Label
  pub reason : Reason
  pub run_id : Option Text
  pub status : Option Status
  pub patch_proposed : Bool
  pub targets_expected_file : Bool
  pub root_cause_match : Bool
  pub expected_files : List Text
  pub confidence : Option ℕ

-- `path.replace("\\", "/")`
abbrev slashed : Text → Text
slashed path = map (λ c. if c == 92 then b'/' else c) path

abbrev is_name : Text → Bool
is_name piece = not (is_empty piece || text_eq piece (lit "."))

abbrev last_piece : Text → List Text → Text
last_piece last [] = last
last_piece last (piece ∷ pieces) = last_piece piece pieces

-- `PurePosixPath(…).name`
unfoldable pub basename : Text → Text
unfolding split_on text_eq
basename path = last_piece [] (filter is_name (split_on b'/' (slashed path)))

abbrev pub parsed_diff_of : Run → Text
parsed_diff_of run = elim run.llm [ none ↦ [] | some columns ↦ columns.parsed_diff ]

abbrev pub root_cause_of : Run → Text
root_cause_of run = elim run.llm [
  | none ↦ []
  | some columns ↦ elim columns.parsed_root_cause [ none ↦ [] | some text ↦ text ]
]

abbrev pub response_of : Run → Text
response_of run = elim run.llm [ none ↦ [] | some columns ↦ columns.proposal.text ]

abbrev pub confidence_of : Run → Option ℕ
confidence_of run = elim run.llm [ none ↦ none | some columns ↦ some columns.proposal.confidence ]

abbrev pub affected_files_of : Run → List Text
affected_files_of run = elim run.investigation [
  | none ↦ []
  | some investigation ↦ investigation.0.affected_files
]

unfoldable pub file_mentioned : Text → Text → Bool
unfolding basename lower contains
file_mentioned expected haystack = contains (lower haystack) (lower (basename expected))

-- With no expected files there is nothing to miss.
unfoldable pub targets_expected_file : Run → List Text → Bool
unfolding basename lower member file_mentioned
targets_expected_file run expected_files =
    is_empty expected_files
    || any
        (λ expected.
          member (lower (basename expected)) (map (λ p. lower (basename p)) (affected_files_of run))
          || file_mentioned expected (parsed_diff_of run))
        expected_files

unfoldable pub patch_proposed : Run → Bool
unfolding strip
patch_proposed run = not (is_empty (strip (parsed_diff_of run)))

abbrev pub any_keyword : List Text → Text → Bool
any_keyword keywords blob = any (λ keyword. contains blob (lower keyword)) keywords

unfoldable pub root_cause_match : Run → List Text → Bool
unfolding lower contains
root_cause_match run keywords =
    any_keyword keywords (lower (root_cause_of run ++ (10 ∷ response_of run)))

unfoldable pub diagnosis_match : Run → List Text → Bool
unfolding lower contains
diagnosis_match run keywords = any_keyword keywords (lower (root_cause_of run))

abbrev pub grade_patch : (proposed targets keywords diagnosed : Bool) → Status → Label × Reason
grade_patch proposed targets keywords diagnosed status =
    if proposed && targets && keywords && not diagnosed
    then (partial, wrong_diagnosis)
    else if proposed && targets
    then (correct, patched_expected_file)
    else if proposed || targets
    then (partial, if proposed then patched_wrong_file else located_without_patch)
    else (wrong, no_actionable_patch status)

abbrev pub grade_skip : Bool → Label × Reason
grade_skip proposed =
    if proposed then (wrong, should_have_been_skipped) else (correct, rightly_skipped)

abbrev pub grade_explained : (proposed keywords mentioned : Bool) → Label × Reason
grade_explained proposed keywords mentioned =
    if keywords && not mentioned
    then (partial, unexplained)
    else (correct, if proposed then flagged_uncertain else withheld_patch)

abbrev pub grade_tentative : (proposed keywords mentioned : Bool) → Option ℕ → ℤ → Label × Reason
grade_tentative proposed keywords mentioned none ceiling =
    grade_explained proposed keywords mentioned
grade_tentative proposed keywords mentioned (some confidence) ceiling =
    if ltb_int ceiling (pos confidence)
    then (wrong, exceeds_ceiling confidence ceiling)
    else grade_explained proposed keywords mentioned

abbrev pub grade_no_patch :
    (proposed keywords mentioned : Bool) → Option ℕ → Option ℤ → Label × Reason
grade_no_patch proposed keywords mentioned confidence none = grade_skip proposed
grade_no_patch proposed keywords mentioned confidence (some ceiling) =
    grade_tentative proposed keywords mentioned confidence ceiling

abbrev pub is_failed : Status → Bool
is_failed failed = true
is_failed _ = false

unfoldable pub grade : GroundTruth → Run → Label × Reason
unfolding patch_proposed targets_expected_file root_cause_match diagnosis_match
grade gt run =
    let keywords = not (is_empty gt.root_cause_keywords) in
    if is_failed run.processing_status
    then (wrong, run_failed run.error_message)
    else if gt.expect_patch
    then grade_patch (patch_proposed run) (targets_expected_file run gt.expected_files) keywords
        (diagnosis_match run gt.root_cause_keywords) run.processing_status
    else grade_no_patch (patch_proposed run) keywords (root_cause_match run gt.root_cause_keywords)
        (confidence_of run) gt.max_confidence

abbrev unscored : Text → GroundTruth → ScenarioScore
unscored scenario_id gt = record {
  scenario_id = scenario_id;
  label = wrong;
  reason = no_run;
  run_id = none;
  status = none;
  patch_proposed = false;
  targets_expected_file = false;
  root_cause_match = false;
  expected_files = gt.expected_files;
  confidence = none;
}

unfoldable pub score_run : Text → GroundTruth → Option Run → ScenarioScore
unfolding grade patch_proposed targets_expected_file root_cause_match diagnosis_match
score_run scenario_id gt none = unscored scenario_id gt
score_run scenario_id gt (some run) = record {
  scenario_id = scenario_id;
  label = (grade gt run).0;
  reason = (grade gt run).1;
  run_id = some run.id;
  status = some run.processing_status;
  patch_proposed = patch_proposed run;
  targets_expected_file = targets_expected_file run gt.expected_files;
  root_cause_match =
      if not (is_failed run.processing_status) && gt.expect_patch
      then diagnosis_match run gt.root_cause_keywords
      else root_cause_match run gt.root_cause_keywords;
  expected_files = gt.expected_files;
  confidence = confidence_of run;
}

pub record CorpusScore : Type 0 where
  pub scenario_count : ℕ
  pub correct_count : ℕ
  pub partial_count : ℕ
  pub wrong_count : ℕ
  pub scores : List ScenarioScore

abbrev pub is_label : Label → Label → Bool
is_label correct correct = true
is_label partial partial = true
is_label wrong wrong = true
is_label _ _ = false

abbrev pub count_label : Label → List ScenarioScore → ℕ
count_label label scores = length (filter (λ s. is_label label s.label) scores)

unfoldable pub aggregate : List ScenarioScore → CorpusScore
aggregate scores = record {
  scenario_count = length scores;
  correct_count = count_label correct scores;
  partial_count = count_label partial scores;
  wrong_count = count_label wrong scores;
  scores = scores;
}
