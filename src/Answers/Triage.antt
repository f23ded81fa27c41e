-- ===== src/Answers/Triage.antt =====
-- agent/triage.py: `_parse_decision`.
use llopster.Base.{
  ℕ, Option, none, some, [], ◌∷◌, Bool, true, false, if◌then◌else◌, is_empty, ◌==◌, Text, lit,
  strip, lower,
}
use llopster.Answers.Sections.{
  section, heading_at, then_line, skip_spaces, after_prefix, stripped_section,
}
use llopster.Answers.Scores.{is_score, score_of, out_of_five, after_dash, starts_word}

abbrev pub word_ends : Bool → Option Text → Option Bool
word_ends proceed none = none
word_ends proceed (some rest) = if starts_word rest then none else some proceed

abbrev pub or_skip : Text → Option Bool → Option Bool
or_skip s (some proceed) = some proceed
or_skip s none = word_ends false (after_prefix (lit "skip") s)

-- `(proceed|skip)\b`, on a text in lower case
unfoldable pub decision_word : Text → Option Bool
unfolding after_prefix lit
decision_word s = or_skip s (word_ends true (after_prefix (lit "proceed") s))

abbrev pub then_word : Option Text → Option Bool
then_word none = none
then_word (some s) = decision_word (skip_spaces s)

-- `##\s+Decision\s*\n\s*(proceed|skip)\b` at its first match, whatever the case of the letters
unfoldable pub decision : Text → Option Bool
unfolding heading_at decision_word skip_spaces lit
decision [] = none
decision (c ∷ s) =
    let later = decision s in
    elim (then_word (then_line (heading_at (lit "decision") (c ∷ s)))) [
      | none ↦ later
      | some proceed ↦ some proceed
    ]

-- `([1-5])\s*/\s*5` at its first match
unfoldable pub score_out_of_five : Text → Option ℕ
unfolding out_of_five
score_out_of_five [] = none
score_out_of_five (c ∷ s) =
    let later = score_out_of_five s in
    if is_score c
    then (elim (out_of_five s) [ none ↦ later | some rest ↦ some (score_of c) ])
    else later

-- The characters in front of a line feed.
abbrev line_of : Text → Text
line_of [] = []
line_of (c ∷ s) = let rest = line_of s in if c == 10 then [] else c ∷ rest

abbrev dash_reason : Option Text → Option Text
dash_reason none = none
dash_reason (some s) = elim (after_dash s) [ none ↦ none | some rest ↦ some (strip (line_of rest)) ]

-- `[1-5]\s*/\s*5\s*[—\-–]\s*(.*)` at its first match
unfoldable pub reason_behind_score : Text → Option Text
unfolding out_of_five after_dash strip
reason_behind_score [] = none
reason_behind_score (c ∷ s) =
    let later = reason_behind_score s in
    if is_score c
    then (elim (dash_reason (out_of_five s)) [ none ↦ later | some reason ↦ some reason ])
    else later

abbrev pub confidence_of_section : Option Text → ℕ
confidence_of_section none = 0
confidence_of_section (some body) = elim (score_out_of_five body) [ none ↦ 0 | some score ↦ score ]

abbrev reason_of_section : Option Text → Text
reason_of_section none = []
reason_of_section (some body) = elim (reason_behind_score body) [ none ↦ [] | some reason ↦ reason ]

unfoldable pub parse_decision : Text → Bool × ℕ × Text
unfolding decision section stripped_section score_out_of_five reason_behind_score lower lit
parse_decision text = elim (decision (lower text)) [
  | none ↦ (true, 0, lit "decision section missing from triage response")
  | some proceed ↦
      let confidence_section = section (lit "Confidence") text in
      let reasoning = stripped_section (lit "Reasoning") text in
      (
        proceed,
        confidence_of_section confidence_section,
        if is_empty reasoning then reason_of_section confidence_section else reasoning,
      )
]
