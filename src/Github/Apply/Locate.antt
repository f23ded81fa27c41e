-- ===== src/Github/Apply/Locate.antt =====
-- Where `_locate_hunk` puts a hunk.
use Prim.Native.Nat.{zero, suc}
use llopster.Base.{
  ℕ, ◌+◌, ◌-◌, ◌≤◌, ◌<◌, ◌≡◌, refl, true, ◌&&◌, List, [], ◌∷◌, if◌then◌else◌, Text, length, All,
  Has, here, there, Has-filter, filter-All, arith, inl, inr, Bool-cases, leb, ◌==◌,
}
use llopster.Github.Apply.{
  ok, matches_at, range, candidates, offset, is_nearer, nearest, locate_hunk, choose,
}

-- The anchor stands at index `j` of the file, behind the lines that are already consumed.
abbrev pub Fits : List Text → List Text → ℕ → ℕ → Type 0
Fits lines expected min_idx j = matches_at lines expected min_idx j ≡ true

nearest_keeps {ℓ} :
    (P : ℕ → Type ℓ) (o best : ℕ) (js : List ℕ) → P best → All P js → P (nearest o best js)
unfolding nearest
nearest_keeps P o best [] h hs = h
nearest_keeps P o best (j ∷ js) h hs = elim (Bool-cases (is_nearer o j best)) [
  | inl e ↦ rw e (nearest_keeps P o j js hs.0 hs.1)
  | inr e ↦ rw e (nearest_keeps P o best js h hs.1)
]

offset-nearest : (o best : ℕ) (js : List ℕ) → offset o (nearest o best js) ≤ offset o best
unfolding nearest
offset-nearest o best [] = omega arith
offset-nearest o best (j ∷ js) = elim (Bool-cases (is_nearer o j best)) [
  | inl e ↦ rw e (ground (arith, offset-nearest o j js))
  | inr e ↦ rw e (offset-nearest o best js)
]

nearest-le :
    (o : ℕ) {j : ℕ} (best : ℕ) {js : List ℕ} → Has j js → offset o (nearest o best js) ≤ offset o j
unfolding nearest
nearest-le o {j} best (here {y} {xs} e) = elim (Bool-cases (is_nearer o y best)) [
  | inl n ↦ rw n (rw (e) (offset-nearest o y xs))
  | inr n ↦ rw n (rw e (ground (arith, offset-nearest o best xs)))
]
nearest-le o best (there {y} m) = nearest-le o (if is_nearer o y best then y else best) m

Has-range : (start count j : ℕ) → start ≤ j → j < start + count → Has j (range start count)
Has-range start zero j lo hi = absurd (omega arith)
Has-range start (suc count) j lo hi = elim (Bool-cases (j == start)) [
  | inl e ↦ here (ground arith)
  | inr e ↦ there (Has-range (suc start) count j (ground arith) (omega arith))
]

Fits-bounds :
    (lines expected : List Text) (min_idx j : ℕ)
    → Fits lines expected min_idx j
    → (min_idx ≤ j) × (j + length expected ≤ length lines)
unfolding matches_at
Fits-bounds lines expected min_idx j h = ground arith

Has-candidates :
    (lines expected : List Text) (min_idx j : ℕ)
    → Fits lines expected min_idx j
    → Has j (candidates lines expected min_idx)
unfolding candidates
Has-candidates lines expected min_idx j h =
    let (lo, hi) = Fits-bounds lines expected min_idx j h in
    let width : ℕ = length lines + 1 - length expected - min_idx in
    Has-filter (matches_at lines expected min_idx) (Has-range min_idx width j lo (omega arith)) h

candidates-All :
    (lines expected : List Text) (min_idx : ℕ)
    → All (Fits lines expected min_idx) (candidates lines expected min_idx)
unfolding candidates
candidates-All lines expected min_idx = filter-All (matches_at lines expected min_idx) _

choose_nearest :
    (P : ℕ → Type 0) (lines : List Text) (first : Text) (o : ℕ) (js : List ℕ) (t : ℕ)
    → All P js
    → choose lines first o js ≡ ok t
    → P t × ((j : ℕ) → Has j js → offset o t ≤ offset o j)
unfolding choose
choose_nearest P lines first o [] t hs e = absurd (cc)
choose_nearest P lines first o (j ∷ js) t hs e =
    let found : nearest o j js ≡ t = cc in
    (rw (← found) (nearest_keeps P o j js hs.0 hs.1), λ k m. rw (← found) (closest k m))
  where
    closest : (k : ℕ) → Has k (j ∷ js) → offset o (nearest o j js) ≤ offset o k
    closest k (here p) = rw p (offset-nearest o j js)
    closest k (there m) = nearest-le o j m

choose_total :
    (lines : List Text) (first : Text) (o : ℕ) {j : ℕ} {js : List ℕ}
    → Has j js
    → (t : ℕ) × (choose lines first o js ≡ ok t)
unfolding choose
choose_total lines first o (here {y} {xs} e) = (nearest o y xs, refl)
choose_total lines first o (there {y} {xs} m) = (nearest o y xs, refl)

-- A hunk with an anchor is put where its anchor stands behind the consumed lines, and nowhere
-- else does the anchor stand nearer to the line that the hunk's header names.
pub locate_hunk_nearest :
    (lines : List Text) (first : Text) (more : List Text) (o min_idx t : ℕ)
    → locate_hunk lines (first ∷ more) o min_idx ≡ ok t
    → Fits lines (first ∷ more) min_idx t
      × ((j : ℕ) → Fits lines (first ∷ more) min_idx j → offset o t ≤ offset o j)
unfolding locate_hunk
locate_hunk_nearest lines first more o min_idx t e =
    elim (Bool-cases (leb 1 o && matches_at lines (first ∷ more) min_idx (o - 1))) [
      | inl exact ↦
          let at_header : ok (o - 1) ≡ ok t = rw exact at e in
          let same : o - 1 ≡ t = cc in
          (rw (← same) (ground arith), λ j h. rw (← same) (ground arith))
      | inr drift ↦
          let (fits, closest) =
            choose_nearest (Fits lines (first ∷ more) min_idx) lines first o _ t
              (candidates-All lines (first ∷ more) min_idx) (rw drift at e) in
          (fits, λ j h. closest j (Has-candidates lines (first ∷ more) min_idx j h))
    ]

-- A hunk whose anchor stands anywhere behind the consumed lines is located.
pub locate_hunk_total :
    (lines : List Text) (first : Text) (more : List Text) (o min_idx j : ℕ)
    → Fits lines (first ∷ more) min_idx j
    → (t : ℕ) × (locate_hunk lines (first ∷ more) o min_idx ≡ ok t)
unfolding locate_hunk
locate_hunk_total lines first more o min_idx j h =
    elim (Bool-cases (leb 1 o && matches_at lines (first ∷ more) min_idx (o - 1))) [
      | inl exact ↦ (o - 1, rw exact)
      | inr drift ↦
          rw drift (choose_total lines first o (Has-candidates lines (first ∷ more) min_idx j h))
    ]

-- Wherever a hunk is put, no consumed line is touched and the file is not left.
pub locate_hunk_bounds :
    (lines expected : List Text) (o min_idx t : ℕ)
    → locate_hunk lines expected o min_idx ≡ ok t
    → (min_idx ≤ t) × (t + length expected ≤ length lines)
locate_hunk_bounds lines [] o min_idx t e = unfold locate_hunk in ground arith
locate_hunk_bounds lines (first ∷ more) o min_idx t e =
    Fits-bounds lines (first ∷ more) min_idx t
      (locate_hunk_nearest lines first more o min_idx t e).0

-- A hunk whose header is right is put at its header's line.
locate_hunk_exact :
    (lines expected : List Text) (min_idx t : ℕ)
    → Fits lines expected min_idx t
    → locate_hunk lines expected (t + 1) min_idx ≡ ok t
unfolding locate_hunk
locate_hunk_exact lines [] min_idx t h =
    let (lo, hi) = Fits-bounds lines [] min_idx t h in ground arith
locate_hunk_exact lines (first ∷ more) min_idx t h =
    let e : t + 1 - 1 ≡ t = omega arith in ground (arith, e)
