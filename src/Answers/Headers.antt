-- ===== src/Answers/Headers.antt =====
-- agent/triage.py: what the expression for a header line finds in a text.
use mathlib.Core.Bool.{true≢false}
use llopster.Base.{
  some_inj, ℕ, ◌≡◌, refl, sym, ap, ◌∙◌, Option, none, some, [], ◌∷◌, ◌++◌, true, false, arith, Text,
  lit, starts_with, is_space, drop, length, Bool-cases, All, is_empty, Option-cases, inl, inr, ◌==◌,
}
use llopster.Answers.Sections.{
  after_prefix, skip_spaces, after_line, heading_at, starts_space, behind_marks,
}

abbrev pub IsBlank : Text → Type 0
IsBlank s = All (λ c. is_space c ≡ true) s

starts_with-drop :
    (s prefix : Text) → starts_with s prefix ≡ true → s ≡ prefix ++ drop (length prefix) s
unfolding starts_with
starts_with-drop s [] h = refl
starts_with-drop [] (p ∷ prefix) h = absurd (cc)
starts_with-drop (c ∷ s) (p ∷ prefix) h = elim (Bool-cases (c == p)) [
  | inl e ↦
      ap (λ k. k ∷ s) (equal c p e) ∙ ap (λ t. p ∷ t) (starts_with-drop s prefix (sym (rw e) ∙ h))
  | inr e ↦ absurd (true≢false (sym h ∙ rw e))
]
  where
    equal : (a b : ℕ) → (a == b) ≡ true → a ≡ b
    equal a b e = ground arith

none-some : {b : Text} → none ≡ some b → ⊥
none-some h = cc

pub after_prefix-append :
    (prefix s rest : Text) → after_prefix prefix s ≡ some rest → s ≡ prefix ++ rest
unfolding after_prefix
after_prefix-append prefix s rest e = elim (Bool-cases (starts_with s prefix)) [
  | inl p ↦ starts_with-drop s prefix p ∙ ap (λ t. prefix ++ t) (some_inj (sym (rw p) ∙ e))
  | inr p ↦ absurd (none-some (sym (rw p) ∙ e))
]

-- A text that begins with spaces.
pub record Blanks (s rest : Text) : Type 0 where
  pub gap : Text
  pub blank : IsBlank gap
  pub same : s ≡ gap ++ rest

pub skip_spaces-Blanks : (s : Text) → Blanks s (skip_spaces s)
unfolding skip_spaces
skip_spaces-Blanks [] = record { gap = []; blank = tt; same = refl }
skip_spaces-Blanks (c ∷ s) = elim (Bool-cases (is_space c)) [
  | inl e ↦
      let b = skip_spaces-Blanks s in
      record { gap = c ∷ b.gap; blank = (e, b.blank); same = rw e (ap (λ t. c ∷ t) b.same) }
  | inr e ↦ record { gap = []; blank = tt; same = sym (rw e) }
]

pub after_line-Blanks : (s rest : Text) → after_line s ≡ some rest → Blanks s (10 ∷ rest)
unfolding after_line
after_line-Blanks [] rest e = absurd (none-some e)
after_line-Blanks (c ∷ s) rest e = elim (Bool-cases (is_space c)) [
  | inl p ↦ elim (Option-cases (after_line s)) [
    | inl n ↦ elim (Bool-cases (c == 10)) [
      | inl q ↦ record {
        gap = [];
        blank = tt;
        same = ap (λ k. k ∷ s) (equal c q) ∙ ap (λ t. 10 ∷ t) (some_inj (sym (rw (p, n, q)) ∙ e));
      }
      | inr q ↦ absurd (none-some (sym (rw (p, n, q)) ∙ e))
    ]
    | inr (later, n) ↦
        let b = after_line-Blanks s rest (n ∙ (sym (rw (p, n)) ∙ e)) in
        record { gap = c ∷ b.gap; blank = (p, b.blank); same = ap (λ t. c ∷ t) b.same }
  ]
  | inr p ↦ absurd (none-some (sym (rw p) ∙ e))
]
  where
    equal : (a : ℕ) → (a == 10) ≡ true → a ≡ 10
    equal a e = ground arith

-- "##", spaces and the heading.
pub record Heading (heading s rest : Text) : Type 0 where
  pub gap : Text
  pub blank : IsBlank gap
  pub full : is_empty gap ≡ false
  pub same : s ≡ lit "##" ++ (gap ++ (heading ++ rest))

spaced :
    (s : Text) → starts_space s ≡ true → (b : Blanks s (skip_spaces s)) × (is_empty b.gap ≡ false)
unfolding skip_spaces
spaced [] h = absurd (cc)
spaced (c ∷ s) h =
    let b = skip_spaces-Blanks s in
    (record { gap = c ∷ b.gap; blank = (h, b.blank); same = rw h (ap (λ t. c ∷ t) b.same) }, refl)

marks-Heading :
    (heading s rest : Text) (o : Option Text)
    → after_prefix (lit "##") s ≡ o
    → behind_marks heading o ≡ some rest
    → Heading heading s rest
marks-Heading heading s rest none m e = absurd (none-some e)
marks-Heading heading s rest (some x) m e = elim (Bool-cases (starts_space x)) [
  | inl p ↦
      let (b, full) = spaced x p in
      record {
        gap = b.gap;
        blank = b.blank;
        full = full;
        same =
            after_prefix-append (lit "##") s x m
            ∙ ap (λ t. lit "##" ++ t)
                (b.same
                  ∙ ap (λ t. b.gap ++ t)
                      (after_prefix-append heading (skip_spaces x) rest (sym (rw p) ∙ e)));
      }
  | inr p ↦ absurd (none-some (sym (rw p) ∙ e))
]

pub heading_at-Heading :
    (heading s rest : Text) → heading_at heading s ≡ some rest → Heading heading s rest
unfolding heading_at
heading_at-Heading heading s rest e =
    marks-Heading heading s rest (after_prefix (lit "##") s) refl e
