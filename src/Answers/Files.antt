-- ===== src/Answers/Files.antt =====
-- agent/investigator.py: `_parse_affected_files`.
use llopster.Base.{
  ℕ, ◌==◌, none, some, List, [], ◌∷◌, ◌++◌, ◌&&◌, ◌||◌, not, if◌then◌else◌, is_empty, leb, length,
  Text, lit, strip, strip_by, split_lines, member,
}
use llopster.Answers.Sections.{section, skip_spaces}

abbrev pub max_affected_files : ℕ
max_affected_files = 20

-- `re.sub(r"^[-*]\s*", "", line)`
abbrev without_bullet : Text → Text
without_bullet [] = []
without_bullet (c ∷ s) = if c == b'-' || c == b'*' then skip_spaces s else c ∷ s

unfoldable pub clean_line : Text → Text
unfolding skip_spaces strip strip_by
clean_line raw = strip (strip_by (λ c. c == 96) (without_bullet (strip raw)))

-- The files so far and the lines to come.
unfoldable pub collect_files : List Text → List Text → List Text → List Text
unfolding clean_line member
collect_files valid_paths files [] = files
collect_files valid_paths files (raw ∷ lines) =
    let line = clean_line raw in
    let kept =
      if member line valid_paths && not (member line files) then files ++ (line ∷ []) else files in
    let rest = collect_files valid_paths kept lines in
    let passed = collect_files valid_paths files lines in
    if is_empty line then passed else if leb max_affected_files (length kept) then kept else rest

unfoldable pub parse_affected_files : List Text → Text → List Text
unfolding section collect_files split_lines lit
parse_affected_files valid_paths text = elim (section (lit "Affected Files") text) [
  | none ↦ []
  | some body ↦ collect_files valid_paths [] (split_lines body)
]
