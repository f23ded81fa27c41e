-- ===== src/Github/Diff/Sections.antt =====
-- The unified diffs that integrations/github_client.py is to read, as they are written.
use llopster.Base.{
  ℕ, ◌+◌, ◌*◌, ◌≡◌, Bool, true, false, List, [], ◌∷◌, ◌++◌, map, All, leb, Text, lit, strip,
  starts_with, is_empty,
}
use llopster.Github.Diff.{Hunk, Patches, is_body_line}

-- A number as its decimal digits, of which there is at least one.
pub record Numeral : Type 0 where
  pub first : ℕ
  pub rest : List ℕ

abbrev pub is_digit : ℕ → Bool
is_digit d = leb d 9

abbrev pub IsNumeral : Numeral → Type 0
IsNumeral n = All (λ d. is_digit d ≡ true) (n.first ∷ n.rest)

abbrev pub numeral_text : Numeral → Text
numeral_text n = (b'0' + n.first) ∷ map (λ d. b'0' + d) n.rest

abbrev pub value_from : ℕ → List ℕ → ℕ
value_from n [] = n
value_from n (d ∷ ds) = value_from (n * 10 + d) ds

abbrev pub value : Numeral → ℕ
value n = value_from n.first n.rest

pub data Mark : Type 0 where
  context : Mark
  removed : Mark
  added : Mark

-- A line of a hunk, without its line end.
pub record BodyLine : Type 0 where
  pub mark : Mark
  pub content : Text

abbrev pub mark_char : Mark → ℕ
mark_char context = b' '
mark_char removed = b'-'
mark_char added = b'+'

abbrev pub body_text : BodyLine → Text
body_text line = mark_char line.mark ∷ line.content

-- What may stand behind the mark.
abbrev pub IsContent : Mark → Text → Type 0
IsContent context content = Unit
IsContent removed content = starts_with content (lit "-- ") ≡ false
IsContent added content = starts_with content (lit "++ ") ≡ false

-- `@@ -old_start,old_count +new_start,new_count @@ heading`, and the lines below.
pub record HunkText : Type 0 where
  pub old_start : Numeral
  pub old_count : Numeral
  pub new_start : Numeral
  pub new_count : Numeral
  pub heading : Text
  pub body : List BodyLine

pub record IsHunkText (h : HunkText) : Type 0 where
  pub old_start : IsNumeral h.old_start
  pub old_count : IsNumeral h.old_count
  pub new_start : IsNumeral h.new_start
  pub new_count : IsNumeral h.new_count
  pub body : is_empty h.body ≡ false
  pub contents : All (λ (line : BodyLine). IsContent line.mark line.content) h.body

abbrev pub counted : Numeral → Numeral → Text → Text
counted start count rest = numeral_text start ++ (b',' ∷ (numeral_text count ++ rest))

abbrev pub header_text : HunkText → Text
header_text h =
    lit "@@ -"
    ++ counted h.old_start h.old_count
        (lit " +" ++ counted h.new_start h.new_count (lit " @@" ++ h.heading))

abbrev pub hunk_text : HunkText → List Text
hunk_text h = header_text h ∷ map body_text h.body

abbrev pub hunks_text : List HunkText → List Text
hunks_text [] = []
hunks_text (h ∷ hunks) = hunk_text h ++ hunks_text hunks

abbrev pub hunk_of : HunkText → Hunk
hunk_of h = record { old_start = value h.old_start; hunk_lines = map body_text h.body }

-- The section of a file: lines like `diff --git`, the two paths and the hunks.
pub record Section : Type 0 where
  pub preamble : List Text
  pub old_path : Text
  pub path : Text
  pub hunks : List HunkText

-- A line that is neither one of a hunk nor its header.
pub record IsPreamble (line : Text) : Type 0 where
  pub body : is_body_line line ≡ false
  pub header : starts_with line (lit "@@ ") ≡ false

pub record IsSection (s : Section) : Type 0 where
  pub preamble : All IsPreamble s.preamble
  pub path : is_empty s.path ≡ false
  pub stripped : strip (lit "b/" ++ s.path) ≡ lit "b/" ++ s.path
  pub present : is_empty s.hunks ≡ false
  pub hunks : All IsHunkText s.hunks

abbrev pub section_text : Section → List Text
section_text s =
    s.preamble ++ ((lit "--- " ++ s.old_path) ∷ (lit "+++ b/" ++ s.path) ∷ hunks_text s.hunks)

abbrev pub diff_text : List Section → List Text
diff_text [] = []
diff_text (s ∷ sections) = section_text s ++ diff_text sections

abbrev pub paths : List Section → List Text
paths sections = map (λ (s : Section). s.path) sections

-- What the diff says: the hunks of each file.
abbrev pub patches_of : List Section → Patches
patches_of sections = map (λ (s : Section). (s.path, map hunk_of s.hunks)) sections
