-- ===== src/Github/Diff/Headers.antt =====
-- The headers of the hunks in a diff, as integrations/github_client.py reads them.
use llopster.Base.{
  ℕ, ◌+◌, ◌*◌, ◌≡◌, refl, ap, ◌∙◌, true, false, Option, none, some, if◌then◌else◌, List, [], ◌∷◌,
  ◌++◌, map, All, Text, lit, starts_with, arith,
}
use llopster.Github.Diff.{
  header_start, number, number_after, is_ascii_digit, skip_count, drop_prefix,
}
use llopster.Github.Diff.Sections.{
  Numeral, is_digit, IsNumeral, numeral_text, value_from, value, HunkText, IsHunkText, header_text,
}

-- The text does not go on with a digit.
abbrev Stops : Text → Type 0
Stops [] = Unit
Stops (c ∷ s) = is_ascii_digit c ≡ false

is_ascii_digit-digit : (d : ℕ) → is_digit d ≡ true → is_ascii_digit (b'0' + d) ≡ true
unfolding is_ascii_digit
is_ascii_digit-digit d h = ground arith

number_after-value :
    (n : ℕ) (ds : List ℕ) (s : Text)
    → All (λ d. is_digit d ≡ true) ds
    → Stops s
    → number_after n (map (λ d. b'0' + d) ds ++ s) ≡ (value_from n ds, s)
unfolding number_after
number_after-value n [] [] h stops = refl
number_after-value n [] (c ∷ s) h stops = rw stops refl
number_after-value n (d ∷ ds) s (e, h) stops = rw (is_ascii_digit-digit d e) (
    ap (λ k. number_after (n * 10 + k) (map (λ d. b'0' + d) ds ++ s)) (omega arith)
    ∙ number_after-value (n * 10 + d) ds s h stops)

number-numeral :
    (n : Numeral) (s : Text)
    → IsNumeral n
    → Stops s
    → number (numeral_text n ++ s) ≡ some (value n, s)
unfolding number
number-numeral n s (e, h) stops = rw (is_ascii_digit-digit n.first e) (
    ap (λ k. some (number_after k (map (λ d. b'0' + d) n.rest ++ s))) (omega arith)
    ∙ ap some (number_after-value n.first n.rest s h stops))

-- The count behind a comma.
skip_count-counted :
    (n : Numeral) (s : Text) → IsNumeral n → Stops s → skip_count (b',' ∷ (numeral_text n ++ s)) ≡ s
unfolding skip_count drop_prefix starts_with lit
skip_count-counted n s h stops = rw (number-numeral n s h stops, skip_count) refl

-- What `header_start` makes of what stands behind the start of the old lines.
abbrev with_new : ℕ → Option (ℕ × Text) → Option ℕ
with_new start new = elim new [
  | none ↦ none
  | some (_, after_new) ↦
      if starts_with (skip_count after_new) (lit " @@") then some start else none
]

abbrev with_sign : ℕ → Option Text → Option ℕ
with_sign start signed = elim signed [ none ↦ none | some new ↦ with_new start (number new) ]

abbrev with_old : Option (ℕ × Text) → Option ℕ
with_old old = elim old [
  | none ↦ none
  | some (start, after_old) ↦ with_sign start (drop_prefix (lit " +") (skip_count after_old))
]

pub header_start-header :
    (h : HunkText) → IsHunkText h → header_start (header_text h) ≡ some (value h.old_start)
unfolding header_start drop_prefix starts_with lit is_ascii_digit
header_start-header h i =
    ap with_old (number-numeral h.old_start _ i.old_start refl)
    ∙ ap (λ s. with_sign (value h.old_start) (drop_prefix (lit " +") s))
        (skip_count-counted h.old_count _ i.old_count refl)
    ∙ ap (with_new (value h.old_start)) (number-numeral h.new_start _ i.new_start refl)
    ∙ ap (λ s. if starts_with s (lit " @@") then some (value h.old_start) else none)
        (skip_count-counted h.new_count _ i.new_count refl)
