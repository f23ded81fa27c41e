-- ===== src/Github/Apply/Laws.antt =====
-- What applying hunks does to the lines of a file.
use Prim.Native.Nat.{suc}
use llopster.Base.{
  ℕ, ◌+◌, ◌-◌, ◌≤◌, ◌≡◌, refl, sym, ap, ◌∙◌, true, List, [], ◌∷◌, ◌++◌, if◌then◌else◌, Text, length,
  take, drop, arith, ◌==◌, append_assoc, append-nil, drop-step, drop-drop, take-append-drop,
  length-drop, length-take,
}
use llopster.Github.Diff.{Hunk}
use llopster.Github.Apply.{
  ok, anchor, matches_head, matches_at, locate_hunk, terminate, apply_lines, apply_hunks, bind-ok,
}
use llopster.Github.Apply.Locate.{locate_hunk_nearest, locate_hunk_bounds}

-- The lines that a hunk makes of the lines `old` that its anchor stands for: a " " line keeps the
-- file's line, a "-" line drops it, a "+" line adds its content.
pub rewritten : List Text → List Text → List Text
rewritten [] old = []
rewritten ([] ∷ hunk_lines) old = []
rewritten ((prefix ∷ content) ∷ hunk_lines) [] =
    let rest = rewritten hunk_lines [] in if prefix == b'+' then terminate content ∷ rest else rest
rewritten ((prefix ∷ content) ∷ hunk_lines) (line ∷ old) =
    let kept = line ∷ rewritten hunk_lines old in
    let dropped = rewritten hunk_lines old in
    let added = terminate content ∷ rewritten hunk_lines (line ∷ old) in
    let other = rewritten hunk_lines (line ∷ old) in
    if prefix == b' '
    then kept
    else if prefix == b'-'
    then dropped
    else if prefix == b'+'
    then added
    else other

-- `lines` become `out`: the hunks take disjoint stretches, in order, each of which is the hunk's
-- anchor up to line ends; what lies between them stays.
pub data Patched : List Text → List Hunk → List Text → Type 0 where
  rest : (lines : List Text) → Patched lines [] lines
  splice :
      {lines out : List Text} {hunks : List Hunk} (skipped old after : List Text) (hunk : Hunk)
      → lines ≡ skipped ++ (old ++ after)
      → length old ≡ length (anchor hunk.hunk_lines)
      → matches_head old (anchor hunk.hunk_lines) ≡ true
      → Patched after hunks out
      → Patched lines (hunk ∷ hunks) (skipped ++ (rewritten hunk.hunk_lines old ++ out))

-- One hunk's lines, at an index whose following lines are `old ++ after`.
apply_lines_lem :
    (lines hunk_lines acc : List Text) (src : ℕ) (old after : List Text) (r : List Text × ℕ)
    → drop src lines ≡ old ++ after
    → length old ≡ length (anchor hunk_lines)
    → apply_lines lines hunk_lines acc src ≡ ok r
    → (r.0 ≡ acc ++ rewritten hunk_lines old) × (r.1 ≡ src + length old)
unfolding apply_lines rewritten anchor
apply_lines_lem lines [] acc src [] after r d n e = (rw append-nil (ground arith), ground arith)
apply_lines_lem lines [] acc src (x ∷ old) after r d n e = absurd (omega arith)
apply_lines_lem lines ([] ∷ hunk_lines) acc src old after r d n e = absurd (cc)
apply_lines_lem lines ((prefix ∷ content) ∷ hunk_lines) acc src [] after r d n e = ground (
  arith,
  apply_lines_lem lines hunk_lines acc src [] after r d,
  apply_lines_lem lines hunk_lines (acc ++ (terminate content ∷ [])) src [] after r d,
  append_assoc acc (terminate content ∷ []) (rewritten hunk_lines []),
)
apply_lines_lem lines ((prefix ∷ content) ∷ hunk_lines) acc src (x ∷ old) after r d n e = ground (
  arith,
  drop-step lines src d,
  apply_lines_lem lines hunk_lines (acc ++ (x ∷ [])) (suc src) old after r
      (drop-step lines src d).1,
  apply_lines_lem lines hunk_lines acc (suc src) old after r (drop-step lines src d).1,
  apply_lines_lem lines hunk_lines (acc ++ (terminate content ∷ [])) src (x ∷ old) after r d,
  apply_lines_lem lines hunk_lines acc src (x ∷ old) after r d,
  append_assoc acc (x ∷ []) (rewritten hunk_lines old),
  append_assoc acc (terminate content ∷ []) (rewritten hunk_lines (x ∷ old)),
)

located_matches :
    (lines expected : List Text) (o min_idx t : ℕ)
    → locate_hunk lines expected o min_idx ≡ ok t
    → matches_head (drop t lines) expected ≡ true
located_matches lines [] o min_idx t e = unfold matches_head in refl
located_matches lines (first ∷ more) o min_idx t e =
    unfold matches_at in ground (arith, (locate_hunk_nearest lines first more o min_idx t e).0)

matches_head-take :
    (lines expected : List Text)
    → matches_head lines expected ≡ true
    → matches_head (take (length expected) lines) expected ≡ true
unfolding matches_head
matches_head-take lines [] h = refl
matches_head-take [] (x ∷ expected) h = h
matches_head-take (line ∷ lines) (x ∷ expected) h = ground (arith, matches_head-take lines expected)

-- The stretch that a located hunk takes, and what stands before and behind it.
pub record Stretch (lines expected : List Text) (src t : ℕ) : Type 0 where
  pub skipped : List Text
  pub old : List Text
  pub after : List Text
  pub before_eq : skipped ≡ take (t - src) (drop src lines)
  pub whole : drop src lines ≡ skipped ++ (old ++ after)
  pub at_target : drop t lines ≡ old ++ after
  pub old_length : length old ≡ length expected
  pub old_matches : matches_head old expected ≡ true
  pub after_eq : drop (t + length old) lines ≡ after
  pub inside : t + length old ≤ length lines

Stretch-of :
    (lines expected : List Text) (o src t : ℕ)
    → locate_hunk lines expected o src ≡ ok t
    → Stretch lines expected src t
Stretch-of lines expected o src t e =
    let (lo, hi) = locate_hunk_bounds lines expected o src t e in
    let old : List Text = take (length expected) (drop t lines) in
    let after : List Text = drop (length expected) (drop t lines) in
    let split : old ++ after ≡ drop t lines = take-append-drop (length expected) (drop t lines) in
    let n : length old ≡ length expected =
      length-take (length expected) (drop t lines) (omega (arith, length-drop t lines)) in
    let further : drop (t - src) (drop src lines) ≡ drop t lines =
      drop-drop src (t - src) lines ∙ ap (λ k. drop k lines) (omega arith) in
    record {
      skipped = take (t - src) (drop src lines);
      old = old;
      after = after;
      before_eq = refl;
      whole =
          sym (take-append-drop (t - src) (drop src lines))
          ∙ ap (λ r. take (t - src) (drop src lines) ++ r) (further ∙ sym split);
      at_target = sym split;
      old_length = n;
      old_matches =
          matches_head-take (drop t lines) expected (located_matches lines expected o src t e);
      after_eq = ap (λ k. drop (t + k) lines) n ∙ sym (drop-drop t (length expected) lines);
      inside = omega arith;
    }

regroup : (a b c d : List Text) → ((a ++ b) ++ c) ++ d ≡ a ++ (b ++ (c ++ d))
regroup a b c d = simp append_assoc

apply_hunks-Patched_from :
    (lines : List Text) (hunks : List Hunk) (result : List Text) (src : ℕ) {out : List Text}
    → apply_hunks lines hunks result src ≡ ok out
    → (tail : List Text) × (out ≡ result ++ tail) × Patched (drop src lines) hunks tail
unfolding apply_hunks
apply_hunks-Patched_from lines [] result src e =
    (drop src lines, ground arith, rest (drop src lines))
apply_hunks-Patched_from lines (hunk ∷ hunks) result src {out} e =
    let (t, et, e1) = bind-ok (locate_hunk lines (anchor hunk.hunk_lines) hunk.old_start src) _ e in
    let (p, ep, e2) = bind-ok (apply_lines lines hunk.hunk_lines _ t) _ e1 in
    let s = Stretch-of lines (anchor hunk.hunk_lines) hunk.old_start src t et in
    let (text, index) =
      apply_lines_lem lines hunk.hunk_lines _ t s.old s.after p s.at_target s.old_length ep in
    let (tail, same, more) = apply_hunks-Patched_from lines hunks p.0 p.1 e2 in
    let k = rewritten hunk.hunk_lines s.old in
    let rest_eq : drop p.1 lines ≡ s.after = ap (λ i. drop i lines) index ∙ s.after_eq in
    (
      s.skipped ++ (k ++ tail),
      same
          ∙ ap (λ r. r ++ tail) (text ∙ ap (λ x. (result ++ x) ++ k) (sym s.before_eq))
          ∙ regroup result s.skipped k tail,
      splice s.skipped s.old s.after hunk s.whole s.old_length s.old_matches (rw rest_eq at more),
    )

-- Whatever is applied, is a patch: the file's lines are kept in order, but for the stretches that
-- match the anchors of the hunks, one behind the other, and those are rewritten as the hunks say.
pub apply_hunks-Patched :
    (lines : List Text) (hunks : List Hunk) {out : List Text}
    → apply_hunks lines hunks [] 0 ≡ ok out
    → Patched lines hunks out
apply_hunks-Patched lines hunks e =
    let (tail, same, patched) = apply_hunks-Patched_from lines hunks [] 0 e in rw same patched
