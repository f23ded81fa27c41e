-- ===== src/Tests/Answers.antt =====
-- The results on the parsing of answers at fixed inputs.
use llopster.Base.{◌≡◌, refl, ◌≤◌, ◌↔◌, none, List, [], ◌∷◌, ◌++◌, false, Text, lit, lower}
use llopster.Answers.Files.{parse_affected_files}
use llopster.Answers.Known.{IsFileList, parse_affected_files-IsFileList}
use llopster.Answers.Triage.{parse_decision}
use llopster.Answers.FailSafe.{SaysSkip, parse_decision-SaysSkip}
use llopster.Answers.Scores.{parse_confidence}
use llopster.Answers.Confidence.{HasEmptyReason, parse_confidence-HasEmptyReason}

abbrev paths : List Text
paths = lit "a.py" ∷ lit "b.py" ∷ []

abbrev files_text : Text
files_text =
    lit "## Affected Files" ++ (10 ∷ lit "- `b.py`" ++ (10 ∷ lit "* b.py" ++ (10 ∷ lit "- c.py")))

affected : parse_affected_files paths files_text ≡ lit "b.py" ∷ []
unfolding parse_affected_files
affected = refl

parse_affected_files-IsFileList_example : IsFileList paths (parse_affected_files paths files_text)
parse_affected_files-IsFileList_example = parse_affected_files-IsFileList paths files_text

abbrev skip_text : Text
skip_text =
    lit "## Decision"
    ++ (10 ∷ lit "Skip" ++ (10 ∷ lit "## Confidence" ++ (10 ∷ lit "4 / 5 - noise")))

skipped_alert : (parse_decision skip_text).0 ≡ false
unfolding parse_decision
skipped_alert = refl

parse_decision-SaysSkip_example : SaysSkip (lower skip_text) × ((parse_decision skip_text).1 ≤ 5)
parse_decision-SaysSkip_example = parse_decision-SaysSkip skip_text skipped_alert

abbrev no_reason : Text
no_reason = lit "## Confidence" ++ (10 ∷ lit "4/5 -")

raises : parse_confidence no_reason ≡ none
unfolding parse_confidence
raises = refl

parse_confidence-HasEmptyReason_example :
    (parse_confidence no_reason ≡ none) ↔ HasEmptyReason no_reason
parse_confidence-HasEmptyReason_example = parse_confidence-HasEmptyReason no_reason
