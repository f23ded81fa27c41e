-- ===== src/Github/Validate.antt =====
-- agent/patch_validator.py. The parsers of Python, YAML and JSON are parameters: each gives the
-- text of its error, or nothing.
use llopster.Base.{
  Option, none, some, List, [], ◌∷◌, if◌then◌else◌, ◌==◌, Text, lit, text_eq, lower, split_on,
}
use llopster.Github.Paths.{last_segment}

pub record Parsers : Type 0 where
  pub check_python : Text → Text → Option Text
  pub check_yaml : Text → Text → Option Text
  pub check_json : Text → Text → Option Text

-- `s[s.rfind("."):]`, if there is a dot
from_last_dot : Text → Option Text
from_last_dot [] = none
from_last_dot (c ∷ s) = elim (from_last_dot s) [
  | some t ↦ some t
  | none ↦ if c == b'.' then some (c ∷ s) else none
]

-- A dot at index 0 does not count.
dotted_suffix : Text → Text
unfolding from_last_dot
dotted_suffix [] = []
dotted_suffix (c ∷ s) = elim (from_last_dot s) [ some t ↦ lower t | none ↦ [] ]

unfoldable pub extension : Text → Text
unfolding dotted_suffix last_segment
extension path = dotted_suffix (last_segment (split_on b'/' path))

unfoldable pub validate_patched_file : Parsers → Text → Text → Option Text
unfolding extension
validate_patched_file p path content =
    if text_eq (extension path) (lit ".py")
    then p.check_python path content
    else if text_eq (extension path) (lit ".yaml")
    then p.check_yaml path content
    else if text_eq (extension path) (lit ".yml")
    then p.check_yaml path content
    else if text_eq (extension path) (lit ".json")
    then p.check_json path content
    else none

-- The errors, each with its path; the files are valid if there is none.
unfoldable pub validate_patched_files : Parsers → List (Text × Text) → List (Text × Text)
unfolding validate_patched_file
validate_patched_files p [] = []
validate_patched_files p ((path, content) ∷ files) =
    let rest = validate_patched_files p files in
    elim (validate_patched_file p path content) [ none ↦ rest | some e ↦ (path, e) ∷ rest ]
