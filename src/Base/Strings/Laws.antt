-- ===== src/Base/Strings/Laws.antt =====
-- Laws of the text functions.
use Prim.Native.Nat.{ℕ}
use mathlib.Core.Path.{◌≡◌, refl, sym, ap, ◌∙◌}
use mathlib.Core.Logic.{◌↔◌, inl, inr}
use mathlib.Core.Bool.{true, false, true≢false}
use mathlib.Core.List.{List, [], ◌∷◌, ◌++◌}
use native.Mathlib.Omega.{arith}
use llopster.Base.Tests.{◌==◌, Bool-cases}
use llopster.Base.Lists.{All, Has, here, there, any-append}
use llopster.Base.Strings.{
  Text, text_eq, attach, split_lines_keep, concat, split_on, join_with, member, split_lines, breaks,
  is_crlf,
}

pub text_eq_refl : (s : Text) → text_eq s s ≡ true
unfolding text_eq
text_eq_refl [] = refl
text_eq_refl (x ∷ xs) = ground (arith, text_eq_refl xs)

pub eq_of_text_eq : (s t : Text) → text_eq s t ≡ true → s ≡ t
unfolding text_eq
eq_of_text_eq [] [] h = refl
eq_of_text_eq [] (y ∷ ys) h = cc
eq_of_text_eq (x ∷ xs) [] h = cc
eq_of_text_eq (x ∷ xs) (y ∷ ys) h = ground (arith, eq_of_text_eq xs ys)

pub text_eq_comm : (s t : Text) → text_eq s t ≡ text_eq t s
unfolding text_eq
text_eq_comm [] [] = refl
text_eq_comm [] (y ∷ ys) = refl
text_eq_comm (x ∷ xs) [] = refl
text_eq_comm (x ∷ xs) (y ∷ ys) = ground (arith, text_eq_comm xs ys)

pub text_eq_iff : (s t : Text) → (text_eq s t ≡ true) ↔ (s ≡ t)
text_eq_iff s t = (eq_of_text_eq s t, λ e. rw e (text_eq_refl t))

concat-attach : (c : ℕ) (pieces : List Text) → concat (attach c pieces) ≡ c ∷ concat pieces
concat-attach c [] = refl
concat-attach c (piece ∷ pieces) = refl

-- Splitting with the line ends kept loses nothing.
pub concat-split_lines_keep : (s : Text) → concat (split_lines_keep s) ≡ s
unfolding split_lines_keep
concat-split_lines_keep [] = refl
concat-split_lines_keep (c ∷ s) =
    ground (arith, concat-attach c (split_lines_keep s), concat-split_lines_keep s)

abbrev pub Without : ℕ → Text → Type 0
Without sep = All (λ c. (c == sep) ≡ false)

pub split_on_single : (sep : ℕ) (s : Text) → Without sep s → split_on sep s ≡ s ∷ []
unfolding split_on
split_on_single sep [] h = refl
split_on_single sep (c ∷ s) h = rw (h.0, split_on_single sep s h.1)

pub split_on-append :
    (sep : ℕ) (s t : Text) → Without sep s → split_on sep (s ++ (sep ∷ t)) ≡ s ∷ split_on sep t
unfolding split_on
split_on-append sep [] t h = ground arith
split_on-append sep (c ∷ s) t h = rw (h.0, split_on-append sep s t h.1)

-- Splitting undoes joining, for pieces that do not hold the separator.
pub split_on-join_with :
    (sep : ℕ) (piece : Text) (pieces : List Text)
    → All (Without sep) (piece ∷ pieces)
    → split_on sep (join_with sep (piece ∷ pieces)) ≡ piece ∷ pieces
unfolding join_with
split_on-join_with sep piece [] h = split_on_single sep piece h.0
split_on-join_with sep piece (next ∷ pieces) h =
    rw (split_on-append sep piece _ h.0, split_on-join_with sep next pieces h.1)

pub member_of_Has : {s : Text} {xs : List Text} → Has s xs → member s xs ≡ true
unfolding member
member_of_Has {s} (here {y} e) = rw (← e, text_eq_refl s)
member_of_Has {s} (there {y} {xs} m) = elim (Bool-cases (text_eq s y)) [
  | inl e ↦ rw e
  | inr e ↦ rw (e, member_of_Has m)
]

All-attach :
    (sep c : ℕ) (pieces : List Text)
    → (c == sep) ≡ false
    → All (Without sep) pieces
    → All (Without sep) (attach c pieces)
All-attach sep c [] e h = ((e, tt), tt)
All-attach sep c (piece ∷ pieces) e h = ((e, h.0), h.1)

-- No piece of a split holds the separator.
pub All-split_on : (sep : ℕ) (s : Text) → All (Without sep) (split_on sep s)
unfolding split_on
All-split_on sep [] = (tt, tt)
All-split_on sep (c ∷ s) = elim (Bool-cases (c == sep)) [
  | inl e ↦ rw e (tt, All-split_on sep s)
  | inr e ↦ rw e (All-attach sep c (split_on sep s) e (All-split_on sep s))
]

-- No text stands twice.
abbrev pub AreDistinct : List Text → Type 0
AreDistinct [] = Unit
AreDistinct (x ∷ xs) = (member x xs ≡ false) × AreDistinct xs

pub AreDistinct-append :
    (xs : List Text) (x : Text)
    → AreDistinct xs
    → member x xs ≡ false
    → AreDistinct (xs ++ (x ∷ []))
unfolding member
AreDistinct-append [] x d h = (refl, tt)
AreDistinct-append (y ∷ xs) x (a, d) h = elim (Bool-cases (text_eq x y)) [
  | inl e ↦ absurd (true≢false (sym (rw e) ∙ h))
  | inr e ↦ (
    rw (any-append (text_eq y) xs (x ∷ []), a, text_eq_comm y x, e),
    AreDistinct-append xs x d (sym (rw e) ∙ h),
  )
]

attach_cons : (c : ℕ) (pieces : List Text) → attach c pieces ≡ [] → ⊥
attach_cons c [] h = cc
attach_cons c (piece ∷ pieces) h = cc

cons_nil : (piece : Text) (pieces : List Text) → piece ∷ pieces ≡ [] → ⊥
cons_nil piece pieces h = cc

-- Only the empty text has no line.
pub split_lines-nil : (s : Text) → split_lines s ≡ [] → s ≡ []
unfolding split_lines
split_lines-nil [] h = refl
split_lines-nil (c ∷ s) h = elim (Bool-cases (breaks c s)) [
  | inl b ↦ absurd (cons_nil [] (split_lines s) (sym (rw (split_lines, b)) ∙ h))
  | inr b ↦ elim (Bool-cases (is_crlf c s)) [
    | inl d ↦
        absurd (
          true≢false
            (sym d ∙ ap (is_crlf c) (split_lines-nil s (sym (rw (split_lines, b, d)) ∙ h))))
    | inr d ↦ absurd (attach_cons c (split_lines s) (sym (rw (split_lines, b, d)) ∙ h))
  ]
]
