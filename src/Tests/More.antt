-- ===== src/Tests/More.antt =====
-- The results on patches, paths and tables at fixed inputs.
use llopster.Base.{
  split_on, ℕ, ◌≡◌, refl, ◌≤◌, none, some, List, [], ◌∷◌, true, Text, lit, Has, here, there,
  text_eq, lower, strip, rstrip_newlines, is_space,
}
use llopster.Github.Diff.{Hunk}
use llopster.Github.Apply.{ok, apply_hunks, locate_hunk, matches_at, offset}
use llopster.Github.Apply.Laws.{Patched, apply_hunks-Patched}
use llopster.Github.Apply.Locate.{Fits, locate_hunk_nearest, locate_hunk_total}
use llopster.Github.Paths.{protected_dir_components, is_protected_path}
use llopster.Github.Paths.Laws.{is_protected_path_guarded}
use llopster.Messages.{done}
use llopster.Store.{Db, Run, new_run}
use llopster.Tests.Data

abbrev file_lines : List Text
file_lines = (b'x' ∷ 10 ∷ []) ∷ (b'a' ∷ 10 ∷ []) ∷ (b'c' ∷ []) ∷ []

abbrev wanted : Text
wanted = b'a' ∷ []

-- Its header is one line too low.
abbrev hunk : Hunk
hunk = record { old_start = 1; hunk_lines = (b'-' ∷ b'a' ∷ []) ∷ (b'+' ∷ b'b' ∷ []) ∷ [] }

abbrev patched_lines : List Text
patched_lines = (b'x' ∷ 10 ∷ []) ∷ (b'b' ∷ 10 ∷ []) ∷ (b'c' ∷ []) ∷ []

applied : apply_hunks file_lines (hunk ∷ []) [] 0 ≡ ok patched_lines
unfolding apply_hunks locate_hunk matches_at text_eq rstrip_newlines
applied = refl

apply_hunks-Patched_example : Patched file_lines (hunk ∷ []) patched_lines
apply_hunks-Patched_example = apply_hunks-Patched file_lines (hunk ∷ []) applied

located : locate_hunk file_lines (wanted ∷ []) 1 0 ≡ ok 1
unfolding locate_hunk matches_at text_eq rstrip_newlines
located = refl

locate_hunk_nearest_example :
    Fits file_lines (wanted ∷ []) 0 1
    × ((j : ℕ) → Fits file_lines (wanted ∷ []) 0 j → offset 1 1 ≤ offset 1 j)
locate_hunk_nearest_example = locate_hunk_nearest file_lines wanted [] 1 0 1 located

fits : Fits file_lines (wanted ∷ []) 0 1
unfolding matches_at text_eq rstrip_newlines
fits = refl

locate_hunk_total_example : (t : ℕ) × (locate_hunk file_lines (wanted ∷ []) 3 0 ≡ ok t)
locate_hunk_total_example = locate_hunk_total file_lines wanted [] 3 0 1 fits

abbrev spelled : Text
spelled = lit " sub//.GitHub/x "

guarded_there : Has (lit ".GitHub") (split_on b'/' (strip spelled))
unfolding lit strip is_space split_on
guarded_there = there (there (here refl))

guarded_lower : Has (lower (lit ".GitHub")) protected_dir_components
unfolding lit lower
guarded_lower = here refl

is_protected_path_guarded_example : is_protected_path spelled none ≡ true
is_protected_path_guarded_example =
    is_protected_path_guarded spelled none guarded_there guarded_lower

abbrev first_run : Run
first_run =
    new_run (lit "r1") 62999999999999999 Data.crash (Data.crash_payload ∷ []) (lit "webhook")

abbrev updates : List (Text × ℕ)
updates = (lit "open", 3) ∷ (lit "merged", 5) ∷ (lit "merged", 9) ∷ []

abbrev opened_run : Run
opened_run = record first_run { pr_opened = true; pr_url = some (lit "url") }

-- The first run as it may stand later.
abbrev finished_run : Run
finished_run = record first_run { processing_status = done }

abbrev merged_run : Run
merged_run = record opened_run {
  pr_status = some (lit "merged");
  pr_merged_at = some 63000000000000000;
}

abbrev opened_db : Db
opened_db = record Data.db { runs = opened_run ∷ finished_run ∷ merged_run ∷ [] }
