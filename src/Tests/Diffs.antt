-- ===== src/Tests/Diffs.antt =====
-- The reading of a diff of two files.
use llopster.Base.{
  ◌≡◌, refl, List, [], ◌∷◌, ◌++◌, All, Text, lit, split_lines, split_lines_keep, starts_with, strip,
  strip_by, is_space, text_eq, AreDistinct, member,
}
use llopster.Github.Diff.{parse_file_patches, is_body_line}
use llopster.Github.Diff.RoundTrip.{parse_file_patches-diff_text}
use llopster.Github.Diff.Sections.{
  Numeral, context, removed, added, HunkText, IsHunkText, Section, IsSection, diff_text, patches_of,
  paths,
}

abbrev twelve : Numeral
twelve = record { first = 1; rest = 2 ∷ [] }

abbrev two : Numeral
two = record { first = 2; rest = [] }

abbrev hunk : HunkText
hunk = record {
  old_start = twelve;
  old_count = two;
  new_start = twelve;
  new_count = two;
  heading = lit " def f():";
  body =
      record { mark = context; content = lit "x" }
      ∷ record { mark = removed; content = lit "- a" }
      ∷ record { mark = added; content = lit "+ b" }
      ∷ [];
}

hunk-IsHunkText : IsHunkText hunk
unfolding starts_with lit
hunk-IsHunkText = record {
  old_start = (refl, (refl, tt));
  old_count = (refl, tt);
  new_start = (refl, (refl, tt));
  new_count = (refl, tt);
  body = refl;
  contents = (tt, (refl, (refl, tt)));
}

abbrev section : List Text → Text → Section
section preamble path = record {
  preamble = preamble;
  old_path = lit "a";
  path = path;
  hunks = hunk ∷ [];
}

abbrev sections : List Section
sections = section (lit "diff --git a/f b/f" ∷ []) (lit "f.txt") ∷ section [] (lit "dir/g.txt") ∷ []

sections-IsSection : All IsSection sections
unfolding starts_with lit strip strip_by is_space is_body_line
sections-IsSection = (
  record {
    preamble = (record { body = refl; header = refl }, tt);
    path = refl;
    stripped = refl;
    present = refl;
    hunks = (hunk-IsHunkText, tt);
  },
  (
    record {
      preamble = tt;
      path = refl;
      stripped = refl;
      present = refl;
      hunks = (hunk-IsHunkText, tt);
    },
    tt,
  ),
)

abbrev file_diff : Text → Text
file_diff path =
    lit "--- a\n+++ b/" ++ (path ++ lit "\n@@ -12,2 +12,2 @@ def f():\n x\n-- a\n++ b\n")

abbrev diff : Text
diff = lit "diff --git a/f b/f\n" ++ (file_diff (lit "f.txt") ++ file_diff (lit "dir/g.txt"))

diff-lines : split_lines diff ≡ diff_text sections
unfolding split_lines split_lines_keep lit
diff-lines = refl

paths-AreDistinct : AreDistinct (paths sections)
unfolding member text_eq lit
paths-AreDistinct = (refl, (refl, tt))

parse_file_patches-diff_text_example : parse_file_patches diff ≡ patches_of sections
parse_file_patches-diff_text_example =
    parse_file_patches-diff_text diff sections diff-lines sections-IsSection paths-AreDistinct
