-- ===== src/Answers/Sections.antt =====
-- The expression `##\s+HEADING\s*\n(.*?)(?=\n##\s|\Z)` of agent/processor.py, agent/triage.py,
-- agent/investigator.py, agent/patch_generator.py and integrations/github_client.py.
use llopster.Base.{
  ◌==◌, Option, none, some, [], ◌∷◌, Bool, false, if◌then◌else◌, Text, lit, starts_with, strip,
  is_space, drop, length,
}

-- What stands behind the prefix.
unfoldable pub after_prefix : Text → Text → Option Text
unfolding starts_with
after_prefix prefix s = if starts_with s prefix then some (drop (length prefix) s) else none

-- `\s*`
unfoldable pub skip_spaces : Text → Text
unfolding is_space
skip_spaces [] = []
skip_spaces (c ∷ s) = let rest = skip_spaces s in if is_space c then rest else c ∷ s

-- `\s*\n`: behind the last line feed of the spaces, if there is one.
unfoldable pub after_line : Text → Option Text
unfolding is_space
after_line [] = none
after_line (c ∷ s) =
    let later = after_line s in
    if is_space c
    then (elim later [ none ↦ (if c == 10 then some s else none) | some rest ↦ some rest ])
    else none

abbrev pub starts_space : Text → Bool
starts_space [] = false
starts_space (c ∷ s) = is_space c

-- `##\s+HEADING`, for a heading that does not begin with a space
abbrev pub behind_marks : Text → Option Text → Option Text
behind_marks heading none = none
behind_marks heading (some s) =
    if starts_space s then after_prefix heading (skip_spaces s) else none

unfoldable pub heading_at : Text → Text → Option Text
unfolding after_prefix skip_spaces is_space lit
heading_at heading s = behind_marks heading (after_prefix (lit "##") s)

abbrev pub then_line : Option Text → Option Text
then_line none = none
then_line (some s) = after_line s

-- What stands behind the first header line.
unfoldable pub after_header : Text → Text → Option Text
unfolding heading_at after_line
after_header heading [] = none
after_header heading (c ∷ s) =
    let later = after_header heading s in
    elim (then_line (heading_at heading (c ∷ s))) [ none ↦ later | some rest ↦ some rest ]

-- `\n##\s`
unfoldable pub at_next_header : Text → Bool
unfolding after_prefix is_space lit
at_next_header s = elim (after_prefix (10 ∷ lit "##") s) [
  | none ↦ false
  | some rest ↦ starts_space rest
]

-- `(.*?)(?=\n##\s|\Z)`
unfoldable pub section_body : Text → Text
unfolding at_next_header
section_body [] = []
section_body (c ∷ s) = let rest = section_body s in if at_next_header (c ∷ s) then [] else c ∷ rest

-- The group of the first match.
unfoldable pub section : Text → Text → Option Text
unfolding after_header section_body
section heading text = elim (after_header heading text) [
  | none ↦ none
  | some rest ↦ some (section_body rest)
]

-- `m.group(1).strip() if m else ""`
unfoldable pub stripped_section : Text → Text → Text
unfolding section strip
stripped_section heading text = elim (section heading text) [ none ↦ [] | some body ↦ strip body ]

-- agent/processor.py, `_parse_root_cause`
unfoldable pub parse_root_cause : Text → Option Text
unfolding section strip lit
parse_root_cause text = elim (section (lit "Root Cause") text) [
  | none ↦ none
  | some body ↦ some (strip body)
]
