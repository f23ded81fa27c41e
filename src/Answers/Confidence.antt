-- ===== src/Answers/Confidence.antt =====
-- agent/patch_generator.py: when the reading of the score raises, and what it returns.
use llopster.Base.{
  ℕ, ◌≡◌, refl, sym, ap, ◌∙◌, ◌↔◌, Option, none, some, List, [], ◌∷◌, false, Text, lit, strip,
  split_lines, Option-cases, inl, inr, split_lines-nil,
}
use llopster.Answers.Sections.{section}
use llopster.Answers.Scores.{
  score_with_reason, bare_score, first_line, first_of, with_score, bare_or, confidence_in,
  parse_confidence,
}

-- The section has a score with a dash, and nothing stands behind the dash.
pub record HasEmptyReason (text : Text) : Type 0 where
  pub body : Text
  pub score : ℕ
  pub rest : Text
  pub there : section (lit "Confidence") text ≡ some body
  pub scored : score_with_reason (strip body) ≡ some (score, rest)
  pub blank : strip rest ≡ []

some-none : {A : Type 0} (a : A) → some a ≡ none → ⊥
some-none a h = cc

first_line-none : (s : Text) → first_line s ≡ none → s ≡ []
unfolding first_line
first_line-none s h = split_lines-nil s (no_line (split_lines s) h)
  where
    no_line : (lines : List Text) → first_of lines ≡ none → lines ≡ []
    no_line [] h = refl
    no_line (line ∷ lines) h = absurd (some-none (strip line) h)

with_score-none : (score : ℕ) (o : Option Text) → with_score score o ≡ none → o ≡ none
with_score-none score none h = refl
with_score-none score (some reason) h = absurd (some-none (score, reason) h)

-- A text with a bare score is not empty.
bare_or-some :
    (default : ℕ × Text) (body : Text) (o : Option ℕ)
    → bare_score false body ≡ o
    → bare_or (some default) body o ≡ none
    → ⊥
unfolding bare_score
bare_or-some default body none e h = some-none default h
bare_or-some default body (some score) e h =
    some-none score
      (sym e ∙ ap (bare_score false) (first_line-none body (with_score-none score _ h)))

empty_reason :
    (default : ℕ × Text) (text body : Text) (o : Option (ℕ × Text))
    → section (lit "Confidence") text ≡ some body
    → score_with_reason (strip body) ≡ o
    → confidence_in (some default) (strip body) o ≡ none
    → HasEmptyReason text
empty_reason default text body none s e h =
    absurd (bare_or-some default (strip body) (bare_score false (strip body)) refl h)
empty_reason default text body (some (score, rest)) s e h = record {
  body = body;
  score = score;
  rest = rest;
  there = s;
  scored = e;
  blank = first_line-none (strip rest) (with_score-none score _ h);
}

parse_confidence_raises : (text : Text) → parse_confidence text ≡ none → HasEmptyReason text
unfolding parse_confidence
parse_confidence_raises text h = elim (Option-cases (section (lit "Confidence") text)) [
  | inl e ↦ absurd (
      some-none (0, lit "confidence section missing from response")
        (sym (rw (parse_confidence, e)) ∙ h))
  | inr (body, e) ↦
      empty_reason (0, lit "confidence score not parseable") text body
        (score_with_reason (strip body)) e refl (sym (rw (parse_confidence, e)) ∙ h)
]

empty_reason_raises : (text : Text) → HasEmptyReason text → parse_confidence text ≡ none
unfolding parse_confidence first_line split_lines
empty_reason_raises text h = rw (parse_confidence, h.there, h.scored, h.blank)

-- The reading of the score of a patch raises exactly if the section of the confidence has a score
-- with a dash and nothing but spaces behind the dash.
pub parse_confidence-HasEmptyReason :
    (text : Text) → (parse_confidence text ≡ none) ↔ HasEmptyReason text
parse_confidence-HasEmptyReason text = (parse_confidence_raises text, empty_reason_raises text)
