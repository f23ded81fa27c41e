-- ===== src/Github/Diff/RoundTrip.antt =====
-- The parser of integrations/github_client.py reads what is written.
use mathlib.Core.Path.{subst}
use mathlib.Core.List.{foldl, foldl-append}
use llopster.Base.{
  ◌≡◌, refl, sym, ap, ◌∙◌, false, not, some, List, [], ◌∷◌, ◌++◌, map, All, Text, lit, strip,
  starts_with, is_empty, split_lines, AreDistinct, arith, append_assoc, append-nil, map-append,
  text_eq, member,
}
use llopster.Github.Diff.{
  Hunk, Patches, ParseState, start_state, parse_line, parse_lines, parse_file_patches, flush_file,
  flushed_hunks, set_patch, name_file, open_file, new_path,
}
use llopster.Github.Diff.Sections.{
  HunkText, hunks_text, hunk_of, Section, IsSection, section_text, diff_text, paths, patches_of,
}
use llopster.Github.Diff.Lines.{parse_hunks-HunksRead, parse_preamble}

-- The dict of a state whose last file is taken in.
abbrev patches_so_far : ParseState → Patches
patches_so_far st = flush_file st.current_file (flushed_hunks st) st.patches

-- The state behind the two paths.
abbrev named_state : Text → ParseState → ParseState
named_state path st = record (open_file st) { current_file = some path }

parse_line-path :
    (st : ParseState) (path : Text)
    → strip (lit "b/" ++ path) ≡ lit "b/" ++ path
    → parse_line st (lit "+++ b/" ++ path) ≡ record st { current_file = some path }
unfolding parse_line starts_with lit name_file new_path
parse_line-path st path h = rw h refl

parse_line-old : (st : ParseState) (path : Text) → parse_line st (lit "--- " ++ path) ≡ open_file st
unfolding parse_line starts_with lit
parse_line-old st path = refl

-- The lines of a section that stand before its hunks.
parse_paths :
    (st : ParseState) (s : Section)
    → IsSection s
    → foldl parse_line st (section_text s)
      ≡ foldl parse_line (named_state s.path st) (hunks_text s.hunks)
parse_paths st s i =
    foldl-append parse_line st s.preamble
      ((lit "--- " ++ s.old_path) ∷ (lit "+++ b/" ++ s.path) ∷ hunks_text s.hunks)
    ∙ ap
        (λ t.
          foldl parse_line t
            ((lit "--- " ++ s.old_path) ∷ (lit "+++ b/" ++ s.path) ∷ hunks_text s.hunks))
        (parse_preamble st s.preamble i.preamble)
    ∙ ap (λ t. foldl parse_line t ((lit "+++ b/" ++ s.path) ∷ hunks_text s.hunks))
        (parse_line-old st s.old_path)
    ∙ ap (λ t. foldl parse_line t (hunks_text s.hunks))
        (parse_line-path (open_file st) s.path i.stripped)

is_empty-hunks :
    (hunks : List HunkText) → is_empty hunks ≡ false → is_empty (map hunk_of hunks) ≡ false
is_empty-hunks [] h = h
is_empty-hunks (x ∷ hunks) h = refl

-- A section.
parse_section :
    (st : ParseState) (s : Section)
    → IsSection s
    → patches_so_far (foldl parse_line st (section_text s))
      ≡ set_patch s.path (map hunk_of s.hunks) (patches_so_far st)
unfolding open_file
parse_section st s i =
    let named = ap not i.path in
    let found = parse_hunks-HunksRead (named_state s.path st) s.hunks i.hunks named in
    ap patches_so_far (parse_paths st s i)
    ∙ rw (found.file, found.flushed, found.patches, i.path, is_empty-hunks s.hunks i.present) refl

abbrev names : Patches → List Text
names patches = map (λ p. p.0) patches

text_eq_of_member :
    (f file : Text) (xs rest : List Text)
    → member f (xs ++ (file ∷ rest)) ≡ false
    → text_eq f file ≡ false
unfolding member
text_eq_of_member f file [] rest h = ground arith
text_eq_of_member f file (x ∷ xs) rest h = ground (arith, text_eq_of_member f file xs rest)

-- A file that is not there yet comes last.
set_patch_new :
    (file : Text) (hunks : List Hunk) (patches : Patches) (rest : List Text)
    → AreDistinct (names patches ++ (file ∷ rest))
    → set_patch file hunks patches ≡ patches ++ ((file, hunks) ∷ [])
unfolding set_patch
set_patch_new file hunks [] rest d = refl
set_patch_new file hunks ((f, hs) ∷ patches) rest (new, d) =
    rw (text_eq_of_member f file (names patches) rest new)
      (ap (λ ps. (f, hs) ∷ ps) (set_patch_new file hunks patches rest d))

parse_sections :
    (st : ParseState) (sections : List Section)
    → All IsSection sections
    → AreDistinct (names (patches_so_far st) ++ paths sections)
    → patches_so_far (foldl parse_line st (diff_text sections))
      ≡ patches_so_far st ++ patches_of sections
parse_sections st [] h d = sym (append-nil (patches_so_far st))
parse_sections st (s ∷ sections) (i, is) d =
    let next = foldl parse_line st (section_text s) in
    let read =
      parse_section st s i
      ∙ set_patch_new s.path (map hunk_of s.hunks) (patches_so_far st) (paths sections) d in
    let placed =
      ap (λ ps. names ps ++ paths sections) read
      ∙ ap (λ ns. ns ++ paths sections)
          (map-append (λ p. p.0) (patches_so_far st) ((s.path, map hunk_of s.hunks) ∷ []))
      ∙ append_assoc (names (patches_so_far st)) (s.path ∷ []) (paths sections) in
    ap patches_so_far (foldl-append parse_line st (section_text s) (diff_text sections))
    ∙ parse_sections next sections is (subst AreDistinct (sym placed) d)
    ∙ ap (λ ps. ps ++ patches_of sections) read
    ∙ append_assoc (patches_so_far st) ((s.path, map hunk_of s.hunks) ∷ []) (patches_of sections)

-- A unified diff is read as the hunks of each of its files, in order: one whose lines are those of
-- sections for distinct files, each with a path that `strip` keeps and at least one hunk, where the
-- numbers of a header are decimal, no hunk is empty, no line removes a text that starts with "-- "
-- or adds one that starts with "++ ", and a line before the two paths starts neither like a line of
-- a hunk nor like its header.
pub parse_file_patches-diff_text :
    (diff : Text) (sections : List Section)
    → split_lines diff ≡ diff_text sections
    → All IsSection sections
    → AreDistinct (paths sections)
    → parse_file_patches diff ≡ patches_of sections
unfolding parse_file_patches parse_lines
parse_file_patches-diff_text diff sections lines h d =
    ap parse_lines lines ∙ parse_sections start_state sections h d
