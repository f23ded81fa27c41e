-- ===== src/Answers/Known.antt =====
-- What the parsing of the models' answers may return.
use llopster.Base.{
  ℕ, suc, ◌≤◌, ◌<◌, ◌≡◌, List, [], ◌∷◌, ◌++◌, Bool, true, false, not, ◌&&◌, if◌then◌else◌, is_empty,
  leb, arith, length, All, All-append, length-append, AreDistinct, AreDistinct-append, Text, lit,
  member, Bool-cases, Option-cases, inl, inr, split_lines,
}
use llopster.Answers.Sections.{section}
use llopster.Answers.Files.{clean_line, collect_files, parse_affected_files, max_affected_files}

-- The files are valid paths, none stands twice, and there are at most as many as the limit says.
pub record IsFileList (valid_paths files : List Text) : Type 0 where
  pub known : All (λ file. member file valid_paths ≡ true) files
  pub distinct : AreDistinct files
  pub bounded : length files ≤ max_affected_files

length_one_more :
    (files : List Text) (line : Text) → length (files ++ (line ∷ [])) ≡ suc (length files)
length_one_more files line = omega (arith, length-append files (line ∷ []))

and_left : (b c : Bool) → (b && c) ≡ true → b ≡ true
and_left b c h = ground arith

and_right : (b c : Bool) → (b && c) ≡ true → c ≡ true
and_right b c h = ground arith

not-true : (b : Bool) → not b ≡ true → b ≡ false
not-true b h = ground arith

abbrev keep : List Text → List Text → Text → List Text
keep valid_paths files line =
    if member line valid_paths && not (member line files) then files ++ (line ∷ []) else files

keep-IsFileList :
    (valid_paths files : List Text) (line : Text)
    → length files < max_affected_files
    → IsFileList valid_paths files
    → IsFileList valid_paths (keep valid_paths files line)
keep-IsFileList valid_paths files line l h =
    elim (Bool-cases (member line valid_paths && not (member line files))) [
      | inl e ↦ rw e (record {
        known =
            All-append (λ file. member file valid_paths ≡ true) files (line ∷ []) h.known
              (and_left (member line valid_paths) _ e, tt);
        distinct =
            AreDistinct-append files line h.distinct
              (not-true (member line files) (and_right (member line valid_paths) _ e));
        bounded = omega (arith, length_one_more files line);
      })
      | inr e ↦ rw e h
    ]

leb_under : (a b : ℕ) → leb a b ≡ false → b < a
leb_under a b h = ground arith

collect_files-IsFileList :
    (valid_paths lines files : List Text)
    → length files < max_affected_files
    → IsFileList valid_paths files
    → IsFileList valid_paths (collect_files valid_paths files lines)
unfolding collect_files
collect_files-IsFileList valid_paths [] files l h = h
collect_files-IsFileList valid_paths (raw ∷ lines) files l h =
    let k = keep-IsFileList valid_paths files (clean_line raw) l h in
    elim (Bool-cases (is_empty (clean_line raw))) [
      | inl e ↦ rw e (collect_files-IsFileList valid_paths lines files l h)
      | inr e ↦
          elim (Bool-cases
            (leb max_affected_files (length (keep valid_paths files (clean_line raw))))) [
              | inl f ↦ rw (e, f) k
              | inr f ↦ rw (e, f) (collect_files-IsFileList valid_paths lines _ (leb_under _ _ f) k)
            ]
    ]

-- Whatever the investigation answers, the affected files that are read from it are known paths of
-- the codebase, none of them stands twice, and there are at most 20.
pub parse_affected_files-IsFileList :
    (valid_paths : List Text) (text : Text)
    → IsFileList valid_paths (parse_affected_files valid_paths text)
unfolding parse_affected_files
parse_affected_files-IsFileList valid_paths text =
    elim (Option-cases (section (lit "Affected Files") text)) [
      | inl e ↦
          rw (parse_affected_files, e) (record { known = tt; distinct = tt; bounded = omega arith })
      | inr (body, e) ↦
          rw (parse_affected_files, e)
            (collect_files-IsFileList valid_paths (split_lines body) [] (omega arith)
              (record { known = tt; distinct = tt; bounded = omega arith }))
    ]
