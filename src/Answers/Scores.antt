-- ===== src/Answers/Scores.antt =====
-- agent/patch_generator.py and agent/investigator.py: `_parse_confidence`.
use llopster.Base.{
  ℕ, ◌-◌, ◌==◌, Option, none, some, List, [], ◌∷◌, Bool, false, ◌&&◌, ◌||◌, not, if◌then◌else◌,
  is_empty, leb, Text, lit, strip, split_lines,
}
use llopster.Answers.Sections.{section, skip_spaces, after_prefix}

-- `[1-5]`
abbrev pub is_score : ℕ → Bool
is_score c = leb b'1' c && leb c b'5'

abbrev pub score_of : ℕ → ℕ
score_of c = c - b'0'

-- `\s*/\s*5`
unfoldable pub out_of_five : Text → Option Text
unfolding skip_spaces after_prefix
out_of_five s = elim (after_prefix (b'/' ∷ []) (skip_spaces s)) [
  | none ↦ none
  | some rest ↦ after_prefix (b'5' ∷ []) (skip_spaces rest)
]

-- `[—\-–]`
abbrev is_dash : ℕ → Bool
is_dash c = c == 8212 || c == b'-' || c == 8211

-- `\s*[—\-–]\s*`, and what is left
abbrev dashed : Text → Option Text
dashed [] = none
dashed (c ∷ s) = if is_dash c then some (skip_spaces s) else none

unfoldable pub after_dash : Text → Option Text
unfolding skip_spaces
after_dash s = dashed (skip_spaces s)

abbrev pub then_dash : Option Text → Option Text
then_dash none = none
then_dash (some s) = after_dash s

-- `([1-5])\s*/\s*5\s*[—\-–]\s*(.*)` at its first match
unfoldable pub score_with_reason : Text → Option (ℕ × Text)
unfolding out_of_five after_dash
score_with_reason [] = none
score_with_reason (c ∷ s) =
    let later = score_with_reason s in
    if is_score c
    then (elim (then_dash (out_of_five s)) [ none ↦ later | some rest ↦ some (score_of c, rest) ])
    else later

-- `\w` on ASCII
abbrev pub is_word : ℕ → Bool
is_word c =
    (leb b'0' c && leb c b'9')
    || (leb b'A' c && leb c b'Z')
    || (leb b'a' c && leb c b'z')
    || c == b'_'

abbrev pub starts_word : Text → Bool
starts_word [] = false
starts_word (c ∷ s) = is_word c

-- `\b([1-5])\b` at its first match; the flag says whether a word character stands in front.
unfoldable pub bare_score : Bool → Text → Option ℕ
bare_score inside [] = none
bare_score inside (c ∷ s) =
    let later = bare_score (is_word c) s in
    if is_score c && not inside && not (starts_word s) then some (score_of c) else later

-- `text.splitlines()[0].strip()`, none where there is no line
abbrev pub first_of : List Text → Option Text
first_of [] = none
first_of (line ∷ lines) = some (strip line)

unfoldable pub first_line : Text → Option Text
unfolding split_lines strip
first_line s = first_of (split_lines s)

abbrev pub with_score : ℕ → Option Text → Option (ℕ × Text)
with_score score none = none
with_score score (some reason) = some (score, reason)

abbrev pub bare_or : Option (ℕ × Text) → Text → Option ℕ → Option (ℕ × Text)
bare_or default body none = default
bare_or default body (some score) = with_score score (first_line body)

abbrev pub confidence_in : Option (ℕ × Text) → Text → Option (ℕ × Text) → Option (ℕ × Text)
confidence_in default body none = bare_or default body (bare_score false body)
confidence_in default body (some (score, rest)) = with_score score (first_line (strip rest))

-- Of agent/patch_generator.py: the score and the reason; none is an `IndexError`.
unfoldable pub parse_confidence : Text → Option (ℕ × Text)
unfolding section strip score_with_reason bare_score first_line lit
parse_confidence text = elim (section (lit "Confidence") text) [
  | none ↦ some (0, lit "confidence section missing from response")
  | some body ↦
      confidence_in (some (0, lit "confidence score not parseable")) (strip body)
        (score_with_reason (strip body))
]

abbrev first_or_empty : Text → Option (ℕ × Text)
first_or_empty body = if is_empty body then some (0, []) else with_score 0 (first_line body)

-- Of agent/investigator.py.
unfoldable pub parse_investigation_confidence : Text → Option (ℕ × Text)
unfolding section strip score_with_reason bare_score first_line lit
parse_investigation_confidence text = elim (section (lit "Confidence") text) [
  | none ↦ some (0, [])
  | some body ↦
      confidence_in (first_or_empty (strip body)) (strip body) (score_with_reason (strip body))
]
