-- ===== src/Github/Diff.antt =====
-- integrations/github_client.py: finding and parsing the unified diff of a model's answer.
pub mod Sections
pub mod Headers
pub mod Lines
pub mod RoundTrip
use mathlib.Core.Option
use mathlib.Core.List.{foldl}
use llopster.Base.{
  ℕ, ◌+◌, ◌-◌, ◌*◌, Bool, false, ◌&&◌, ◌||◌, not, Option, none, some, List, [], ◌∷◌, ◌++◌, is_empty,
  if◌then◌else◌, leb, ◌==◌, Text, lit, text_eq, starts_with, strip, split_lines, drop, length,
  is_space,
}

-- What stands behind the prefix `p`.
unfoldable pub drop_prefix : Text → Text → Option Text
drop_prefix p s = if starts_with s p then some (drop (length p) s) else none

-- `\s*\n`, greedy: what stands behind the last newline of the leading white space
after_last_newline : Text → Option Text
after_last_newline [] = none
after_last_newline (c ∷ s) =
    let later = after_last_newline s in
    if is_space c
    then elim later [ some rest ↦ some rest | none ↦ if c == 10 then some s else none ]
    else none

-- The text up to the next fence.
until_fence : Text → Option Text
until_fence [] = none
until_fence (c ∷ s) =
    let later = until_fence s in
    if starts_with (c ∷ s) (lit "```") then some [] else Option.map (λ (t : Text). c ∷ t) later

skip_word : Text → Text
unfolding drop_prefix
skip_word s = elim (drop_prefix (lit "diff") s) [ some rest ↦ rest | none ↦ s ]

-- The regular expression at one position: its group.
fenced_here : Text → Option Text
unfolding drop_prefix after_last_newline until_fence skip_word
fenced_here s = elim (drop_prefix (lit "```") s) [
  | none ↦ none
  | some opened ↦ Option.bind (after_last_newline (skip_word opened)) until_fence
]

-- `re.search`
find_fenced : Text → Option Text
unfolding fenced_here
find_fenced [] = none
find_fenced (c ∷ s) =
    let later = find_fenced s in elim (fenced_here (c ∷ s)) [ some body ↦ some body | none ↦ later ]

unfoldable pub extract_diff : Text → Text
unfolding find_fenced
extract_diff proposal_text = elim (find_fenced proposal_text) [ some body ↦ strip body | none ↦ [] ]

pub record Hunk : Type 0 where
  pub old_start : ℕ
  pub hunk_lines : List Text

-- A dict from file to hunks, in insertion order.
abbrev pub Patches : Type 0
Patches = List (Text × List Hunk)

-- `patches[file] = hunks`
unfoldable pub set_patch : Text → List Hunk → Patches → Patches
set_patch file hunks [] = (file, hunks) ∷ []
set_patch file hunks ((f, hs) ∷ patches) =
    if text_eq f file then (f, hunks) ∷ patches else (f, hs) ∷ set_patch file hunks patches

-- The variables of the loop.
pub record ParseState : Type 0 where
  pub patches : Patches
  pub current_file : Option Text
  pub current_hunks : List Hunk
  pub current_hunk_lines : List Text
  pub current_old_start : ℕ

abbrev pub start_state : ParseState
start_state = record {
  patches = [];
  current_file = none;
  current_hunks = [];
  current_hunk_lines = [];
  current_old_start = 0;
}

unfoldable pub is_ascii_digit : ℕ → Bool
is_ascii_digit c = leb b'0' c && leb c b'9'

-- `\d+` at the start: its value, and what follows
unfoldable pub number_after : ℕ → Text → ℕ × Text
unfolding is_ascii_digit
number_after n [] = (n, [])
number_after n (c ∷ s) =
    let more = number_after (n * 10 + (c - b'0')) s in if is_ascii_digit c then more else (n, c ∷ s)

unfoldable pub number : Text → Option (ℕ × Text)
unfolding number_after
number [] = none
number (c ∷ s) = if is_ascii_digit c then some (number_after (c - b'0') s) else none

-- `(?:,\d+)?`
unfoldable pub skip_count : Text → Text
unfolding number
skip_count s = elim (drop_prefix (lit ",") s) [
  | none ↦ s
  | some t ↦ elim (number t) [ none ↦ s | some (n, rest) ↦ rest ]
]

-- `re.match(r"@@ -(\d+)(?:,\d+)? \+\d+(?:,\d+)? @@", line)`, and the number of its group
unfoldable pub header_start : Text → Option ℕ
unfolding number skip_count drop_prefix
header_start line = elim (drop_prefix (lit "@@ -") line) [
  | none ↦ none
  | some old ↦ elim (number old) [
    | none ↦ none
    | some (start, after_old) ↦ elim (drop_prefix (lit " +") (skip_count after_old)) [
      | none ↦ none
      | some new ↦ elim (number new) [
        | none ↦ none
        | some (_, after_new) ↦
            if starts_with (skip_count after_new) (lit " @@") then some start else none
      ]
    ]
  ]
]

-- `if current_hunk_lines: current_hunks.append(…)`
abbrev pub flushed_hunks : ParseState → List Hunk
flushed_hunks st =
    if is_empty st.current_hunk_lines
    then st.current_hunks
    else st.current_hunks
      ++ (record { old_start = st.current_old_start; hunk_lines = st.current_hunk_lines } ∷ [])

-- `if current_file and current_hunks: patches[current_file] = current_hunks`
abbrev pub flush_file : Option Text → List Hunk → Patches → Patches
flush_file none hunks patches = patches
flush_file (some file) hunks patches =
    if is_empty file || is_empty hunks then patches else set_patch file hunks patches

-- the line after `--- `
unfoldable pub open_file : ParseState → ParseState
open_file st = record st {
  patches = flush_file st.current_file (flushed_hunks st) st.patches;
  current_file = none;
  current_hunks = [];
  current_hunk_lines = [];
}

-- `path[2:] if path.startswith("b/") else path`
unfoldable pub new_path : Text → Text
new_path path = if starts_with path (lit "b/") then drop 2 path else path

unfoldable pub name_file : Text → ParseState → ParseState
unfolding new_path
name_file line st = record st { current_file = some (new_path (strip (drop 4 line))) }

unfoldable pub open_hunk : Text → ParseState → ParseState
unfolding header_start
open_hunk line st = record st {
  current_hunks = flushed_hunks st;
  current_hunk_lines = [];
  current_old_start = elim (header_start line) [ some n ↦ n | none ↦ 1 ];
}

abbrev pub is_named : Option Text → Bool
is_named none = false
is_named (some file) = not (is_empty file)

-- `line and line[0] in (" ", "-", "+")`
unfoldable pub is_body_line : Text → Bool
is_body_line [] = false
is_body_line (c ∷ s) = c == b' ' || c == b'-' || c == b'+'

unfoldable pub add_line : Text → ParseState → ParseState
add_line line st = record st { current_hunk_lines = st.current_hunk_lines ++ (line ∷ []) }

-- One round of the loop.
unfoldable pub parse_line : ParseState → Text → ParseState
unfolding open_file name_file open_hunk add_line is_body_line
parse_line st line =
    if starts_with line (lit "--- ")
    then open_file st
    else if starts_with line (lit "+++ ")
    then name_file line st
    else if starts_with line (lit "@@ ")
    then open_hunk line st
    else if is_named st.current_file && is_body_line line
    then add_line line st
    else st

unfoldable pub parse_lines : List Text → Patches
unfolding parse_line
parse_lines lines =
    let st = foldl parse_line start_state lines in
    flush_file st.current_file (flushed_hunks st) st.patches

unfoldable pub parse_file_patches : Text → Patches
unfolding parse_lines
parse_file_patches diff = parse_lines (split_lines diff)

unfoldable pub proposal_has_patch : Text → Bool
unfolding parse_file_patches extract_diff
proposal_has_patch proposal_text = not (is_empty (parse_file_patches (extract_diff proposal_text)))
