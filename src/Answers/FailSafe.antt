-- ===== src/Answers/FailSafe.antt =====
-- agent/triage.py: an alert is skipped only where the answer says so.
use mathlib.Core.Bool.{true≢false}
use mathlib.Core.Path.{subst}
use llopster.Base.{
  some_inj, ℕ, ◌≤◌, ◌≡◌, refl, sym, ap, ◌∙◌, Option, none, some, [], ◌∷◌, ◌++◌, Bool, true, false,
  arith, Text, lit, lower, Bool-cases, is_empty, Option-cases, inl, inr,
}
use llopster.Answers.Sections.{section, after_prefix, skip_spaces, heading_at, then_line}
use llopster.Answers.Scores.{is_score, score_of, out_of_five, starts_word}
use llopster.Answers.Triage.{
  decision, decision_word, then_word, word_ends, or_skip, parse_decision, score_out_of_five,
  confidence_of_section,
}
use llopster.Answers.Headers.{
  IsBlank, after_prefix-append, skip_spaces-Blanks, after_line-Blanks, heading_at-Heading,
}

-- A header line with the heading, and under it the word "skip": `before`, "##", spaces, "decision",
-- spaces and a line feed, more spaces, and "skip", which no letter, digit or underscore follows.
pub record SaysSkip (text : Text) : Type 0 where
  pub before : Text
  pub gap : Text
  pub line : Text
  pub indent : Text
  pub after : Text
  pub blank_gap : IsBlank gap
  pub some_gap : is_empty gap ≡ false
  pub blank_line : IsBlank line
  pub blank_indent : IsBlank indent
  pub word : starts_word after ≡ false
  pub same :
      text
      ≡ before
        ++ (lit "##"
            ++ (gap ++ (lit "decision" ++ (line ++ (10 ∷ (indent ++ (lit "skip" ++ after)))))))

not_proceed : (o : Option Text) → word_ends true o ≡ some false → ⊥
not_proceed none h = cc
not_proceed (some rest) h = elim (Bool-cases (starts_word rest)) [
  | inl p ↦ none_false (sym (rw p) ∙ h)
  | inr p ↦ true_false (sym (rw p) ∙ h)
]
  where
    none_false : none ≡ some false → ⊥
    none_false h = cc

    true_false : some true ≡ some false → ⊥
    true_false h = cc

-- The word, and that it ends there.
record Skip (s : Text) : Type 0 where
  after : Text
  word : starts_word after ≡ false
  same : s ≡ lit "skip" ++ after

ends-Skip :
    (s : Text) (o : Option Text)
    → after_prefix (lit "skip") s ≡ o
    → word_ends false o ≡ some false
    → Skip s
ends-Skip s none m h = absurd (cc)
ends-Skip s (some after) m h = elim (Bool-cases (starts_word after)) [
  | inl p ↦ absurd (none_false (sym (rw p) ∙ h))
  | inr p ↦ record { after = after; word = p; same = after_prefix-append (lit "skip") s after m }
]
  where
    none_false : none ≡ some false → ⊥
    none_false h = cc

or_skip-Skip :
    (s : Text) (o : Option Bool) → or_skip s o ≡ some false → (o ≡ some false → ⊥) → Skip s
or_skip-Skip s none h n = ends-Skip s (after_prefix (lit "skip") s) refl h
or_skip-Skip s (some proceed) h n = absurd (n h)

decision_word-Skip : (s : Text) → decision_word s ≡ some false → Skip s
unfolding decision_word
decision_word-Skip s h =
    or_skip-Skip s (word_ends true (after_prefix (lit "proceed") s)) h
      (not_proceed (after_prefix (lit "proceed") s))

-- The header and the word under it, at the start of a text.
line-SaysSkip :
    (s : Text) (o : Option Text)
    → heading_at (lit "decision") s ≡ o
    → (p : Option Text) → then_line o ≡ p
    → then_word p ≡ some false
    → SaysSkip s
line-SaysSkip s none m p e h = absurd (no_word p e h)
  where
    no_word : (p : Option Text) → none ≡ p → then_word p ≡ some false → ⊥
    no_word none e h = cc
    no_word (some x) e h = cc
line-SaysSkip s (some x) m none e h = absurd (cc)
line-SaysSkip s (some x) m (some y) e h =
    let head = heading_at-Heading (lit "decision") s x m in
    let line = after_line-Blanks x y e in
    let indent = skip_spaces-Blanks y in
    let skip = decision_word-Skip (skip_spaces y) h in
    record {
      before = [];
      gap = head.gap;
      line = line.gap;
      indent = indent.gap;
      after = skip.after;
      blank_gap = head.blank;
      some_gap = head.full;
      blank_line = line.blank;
      blank_indent = indent.blank;
      word = skip.word;
      same =
          head.same
          ∙ ap (λ t. lit "##" ++ (head.gap ++ (lit "decision" ++ t)))
              (line.same
                ∙ ap (λ t. line.gap ++ (10 ∷ t))
                    (indent.same ∙ ap (λ t. indent.gap ++ t) skip.same));
    }

SaysSkip-cons : (c : ℕ) (s : Text) → SaysSkip s → SaysSkip (c ∷ s)
SaysSkip-cons c s h = record {
  before = c ∷ h.before;
  gap = h.gap;
  line = h.line;
  indent = h.indent;
  after = h.after;
  blank_gap = h.blank_gap;
  some_gap = h.some_gap;
  blank_line = h.blank_line;
  blank_indent = h.blank_indent;
  word = h.word;
  same = ap (λ t. c ∷ t) h.same;
}

decision-SaysSkip : (s : Text) → decision s ≡ some false → SaysSkip s
unfolding decision
decision-SaysSkip [] h = absurd (cc)
decision-SaysSkip (c ∷ s) h =
    let o = heading_at (lit "decision") (c ∷ s) in
    elim (Option-cases (then_word (then_line o))) [
      | inl e ↦ SaysSkip-cons c s (decision-SaysSkip s (sym (rw (decision, e)) ∙ h))
      | inr (proceed, e) ↦
          line-SaysSkip (c ∷ s) o refl (then_line o) refl (e ∙ (sym (rw (decision, e)) ∙ h))
    ]

score_under : (c : ℕ) → is_score c ≡ true → score_of c ≤ 5
score_under c h = ground arith

score_out_of_five-bound : (s : Text) (score : ℕ) → score_out_of_five s ≡ some score → score ≤ 5
unfolding score_out_of_five
score_out_of_five-bound [] score h = absurd (cc)
score_out_of_five-bound (c ∷ s) score h = elim (Bool-cases (is_score c)) [
  | inl e ↦ elim (Option-cases (out_of_five s)) [
    | inl f ↦ score_out_of_five-bound s score (sym (rw (e, f)) ∙ h)
    | inr (rest, f) ↦ subst (λ n. n ≤ 5) (some_inj (sym (rw (e, f)) ∙ h)) (score_under c e)
  ]
  | inr e ↦ score_out_of_five-bound s score (sym (rw e) ∙ h)
]

confidence_of_section-bound : (o : Option Text) → confidence_of_section o ≤ 5
confidence_of_section-bound none = omega arith
confidence_of_section-bound (some body) = elim (Option-cases (score_out_of_five body)) [
  | inl e ↦ rw (confidence_of_section, e) (omega arith)
  | inr (score, e) ↦ rw (confidence_of_section, e) (score_out_of_five-bound body score e)
]

-- The confidence of the triage is at most 5.
parse_decision-bound : (text : Text) → (parse_decision text).1 ≤ 5
unfolding parse_decision
parse_decision-bound text = elim (Option-cases (decision (lower text))) [
  | inl e ↦ rw (parse_decision, e) (omega arith)
  | inr (proceed, e) ↦
      rw (parse_decision, e) (confidence_of_section-bound (section (lit "Confidence") text))
]

-- The triage lets an alert be skipped only if its answer, in lower case, has a header line with the
-- heading "decision" and the word "skip" under it, so a malformed or empty answer never drops an
-- alert; and its confidence is then at most 5.
pub parse_decision-SaysSkip :
    (text : Text)
    → (parse_decision text).0 ≡ false
    → SaysSkip (lower text) × ((parse_decision text).1 ≤ 5)
unfolding parse_decision
parse_decision-SaysSkip text h = elim (Option-cases (decision (lower text))) [
  | inl e ↦ absurd (true≢false (sym (rw (parse_decision, e)) ∙ h))
  | inr (proceed, e) ↦ (
    decision-SaysSkip (lower text) (e ∙ ap some (sym (rw (parse_decision, e)) ∙ h)),
    parse_decision-bound text,
  )
]
