-- ===== src/Github/Apply.antt =====
-- integrations/github_client.py: locating the hunks of a diff in a file, and applying them.
-- The source's `header_idx` is `old_start - 1` and may be -1, so `old_start` is kept instead.
pub mod Locate
pub mod Laws
use Prim.Native.Nat.{zero, suc}
use llopster.Base.{
  ℕ, ◌+◌, ◌-◌, ◌≡◌, refl, Bool, true, false, ◌&&◌, ◌||◌, not, Option, none, some, List, [], ◌∷◌,
  ◌++◌, is_empty, if◌then◌else◌, leb, ltb, ◌==◌, Text, lit, text_eq, rstrip_newlines,
  split_lines_keep, concat, drop, take, length, filter, get_elem?,
}
use llopster.Github.Diff.{Hunk}

-- `PatchApplyError` with the parts of its message, and the `IndexError` of `line[0]`.
pub data ApplyError : Type 0 where
  outside_range : (old_start lines : ℕ) → ApplyError
  context_mismatch : (old_start : ℕ) → (expected : Text) → (found : Option Text) → ApplyError
  index_error : ApplyError

pub data Applied {ℓ} (A : Type ℓ) : Type ℓ where
  ok : A → Applied A
  err : ApplyError → Applied A

infixl 5 ◌>>=◌
abbrev pub ◌>>=◌ {ℓ κ} : {A : Type ℓ} {B : Type κ} → Applied A → (A → Applied B) → Applied B
ok a >>= f = f a
err e >>= f = err e

-- `line and line[0] in (" ", "-")`
abbrev pub is_anchor : Text → Bool
is_anchor [] = false
is_anchor (c ∷ s) = c == b' ' || c == b'-'

-- `[line[1:] for line in hunk_lines if …]`
unfoldable pub anchor : List Text → List Text
anchor [] = []
anchor (line ∷ lines) =
    let rest = anchor lines in if is_anchor line then drop 1 line ∷ rest else rest

-- The lines of the anchor stand at the head of the list, but for their line ends.
unfoldable pub matches_head : List Text → List Text → Bool
matches_head lines [] = true
matches_head [] (e ∷ expected) = false
matches_head (line ∷ lines) (e ∷ expected) =
    text_eq (rstrip_newlines line) (rstrip_newlines e) && matches_head lines expected

unfoldable pub matches_at : List Text → List Text → ℕ → ℕ → Bool
unfolding matches_head
matches_at lines expected min_idx idx =
    if ltb idx min_idx || ltb (length lines) (idx + length expected)
    then false
    else matches_head (drop idx lines) expected

-- `range(start, start + count)`
abbrev pub range : ℕ → ℕ → List ℕ
range start zero = []
range start (suc count) = start ∷ range (suc start) count

unfoldable pub candidates : List Text → List Text → ℕ → List ℕ
unfolding matches_at
candidates lines expected min_idx =
    filter (matches_at lines expected min_idx)
      (range min_idx (length lines + 1 - length expected - min_idx))

-- `abs(j - header_idx)`
abbrev pub offset : ℕ → ℕ → ℕ
offset old_start j = (j + 1 - old_start) + (old_start - (j + 1))

-- `(abs(j - header_idx), j) < (abs(best - header_idx), best)`
abbrev pub is_nearer : ℕ → ℕ → ℕ → Bool
is_nearer old_start j best =
    ltb (offset old_start j) (offset old_start best)
    || (offset old_start j == offset old_start best && ltb j best)

-- `min(…, key=…)`, from the first candidate
unfoldable pub nearest : ℕ → ℕ → List ℕ → ℕ
nearest old_start best [] = best
nearest old_start best (j ∷ js) =
    nearest old_start (if is_nearer old_start j best then j else best) js

-- `lines[header_idx].rstrip("\r\n") if 0 <= header_idx < len(lines) else "<end of file>"`
found_line : List Text → ℕ → Option Text
found_line lines zero = none
found_line lines (suc header_idx) = elim (get_elem? lines header_idx) [
  | none ↦ none
  | some line ↦ some (rstrip_newlines line)
]

choose : List Text → Text → ℕ → List ℕ → Applied ℕ
unfolding found_line nearest
choose lines first old_start [] =
    err (context_mismatch old_start (rstrip_newlines first) (found_line lines old_start))
choose lines first old_start (j ∷ js) = ok (nearest old_start j js)

unfoldable pub locate_hunk : List Text → List Text → ℕ → ℕ → Applied ℕ
unfolding choose matches_at candidates
locate_hunk lines [] old_start min_idx =
    if ltb old_start (min_idx + 1) || ltb (length lines + 1) old_start
    then err (outside_range old_start (length lines))
    else ok (old_start - 1)
locate_hunk lines (first ∷ more) old_start min_idx =
    if leb 1 old_start && matches_at lines (first ∷ more) min_idx (old_start - 1)
    then ok (old_start - 1)
    else choose lines first old_start (candidates lines (first ∷ more) min_idx)

-- `line.endswith("\n")`
unfoldable pub ends_line : Text → Bool
ends_line [] = false
ends_line (c ∷ []) = c == 10
ends_line (c ∷ d ∷ s) = ends_line (d ∷ s)

unfoldable pub terminate : Text → Text
unfolding ends_line
terminate content = if ends_line content then content else content ++ (10 ∷ [])

-- `lines[-1] += "\n"`, if the last line has no line end
unfoldable pub terminate_last : List Text → List Text
unfolding terminate
terminate_last [] = []
terminate_last (line ∷ []) = terminate line ∷ []
terminate_last (line ∷ next ∷ lines) = line ∷ terminate_last (next ∷ lines)

-- The inner loop, on `result` and `src_idx`.
unfoldable pub apply_lines : List Text → List Text → List Text → ℕ → Applied (List Text × ℕ)
unfolding terminate
apply_lines lines [] result src_idx = ok (result, src_idx)
apply_lines lines ([] ∷ hunk_lines) result src_idx = err index_error
apply_lines lines ((prefix ∷ content) ∷ hunk_lines) result src_idx =
    let after_keep =
      λ (line : Text). apply_lines lines hunk_lines (result ++ (line ∷ [])) (suc src_idx) in
    let after_removal = apply_lines lines hunk_lines result (suc src_idx) in
    let after_addition =
      apply_lines lines hunk_lines (result ++ (terminate content ∷ [])) src_idx in
    let after_other = apply_lines lines hunk_lines result src_idx in
    if prefix == b' '
    then elim (get_elem? lines src_idx) [ none ↦ err index_error | some line ↦ after_keep line ]
    else if prefix == b'-'
    then after_removal
    else if prefix == b'+'
    then after_addition
    else after_other

-- The outer loop.
unfoldable pub apply_hunks : List Text → List Hunk → List Text → ℕ → Applied (List Text)
unfolding locate_hunk apply_lines anchor
apply_hunks lines [] result src_idx = ok (result ++ drop src_idx lines)
apply_hunks lines (hunk ∷ hunks) result src_idx = do
  target ← locate_hunk lines (anchor hunk.hunk_lines) hunk.old_start src_idx
  (result', src_idx') ←
      apply_lines lines hunk.hunk_lines (result ++ take (target - src_idx) (drop src_idx lines))
        target
  apply_hunks lines hunks result' src_idx'

unfoldable pub apply_patch : Text → List Hunk → Applied Text
unfolding apply_hunks terminate_last
apply_patch original hunks = do
  result ← apply_hunks (terminate_last (split_lines_keep original)) hunks [] 0
  ok (concat result)

-- A sequence that succeeds has a first part that succeeds.
pub bind-ok :
    {A B : Type 0} {result : B} (first : Applied A) (next : A → Applied B)
    → (first >>= next) ≡ ok result
    → (value : A) × (first ≡ ok value) × (next value ≡ ok result)
bind-ok (err problem) next done = absurd (cc)
bind-ok (ok value) next done = (value, refl, done)
