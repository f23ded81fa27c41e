-- ===== src/Github/Client/Gated.antt =====
-- What a run of `open_pr` asks of the server, and under which conditions.
use mathlib.Core.Path.{subst}
use llopster.Base.{
  ◌≡◌, refl, Option, none, some, List, [], ◌∷◌, true, false, is_empty, if◌then◌else◌, All, arith,
  inl, inr, Bool-cases, Text, member,
}
use llopster.Github.Paths.{normalize_repo_path, is_protected_path}
use llopster.Github.Diff.{Hunk, Patches}
use llopster.Github.Apply
use llopster.Github.Apply.{apply_patch}
use llopster.Github.Validate.{Parsers, validate_patched_files}
use llopster.Github.Client.{
  OpenError, no_patches, Request, get_file, returned, Server, ok, err, ask, check_paths,
  normalize_allowed, PatchedFile, or_apply_failed, get_default_branch, fetch_and_apply, contents,
  validated, prepare, lift, unless_error,
}
use llopster.Github.Client.Laws.{bind_ok, pure_ok, lift_ok, ask_ok}

-- The files that are to be written: for each file of the diff its content in the default branch,
-- as the server gave it, with the hunks applied.
pub data Prepared (server : Server) (repo branch : Text) : Patches → List PatchedFile → Type 0 where
  none_left : Prepared server repo branch [] []
  fetched :
      {patches : Patches} {files : List PatchedFile} (path : Text) (hunks : List Hunk)
      (log : List Request) (original content sha : Text)
      → server.file log repo path branch ≡ returned (original, sha)
      → apply_patch original hunks ≡ Apply.Applied.ok content
      → Prepared server repo branch patches files
      → Prepared server repo branch ((path, hunks) ∷ patches) ((path, content, sha) ∷ files)

abbrev pub IsAllowed : Option (List Text) → Text → Type 0
IsAllowed none path = Unit
IsAllowed (some allowed) path = member (normalize_repo_path path) allowed ≡ true

check_paths-none :
    (allowed roots : Option (List Text)) (patches : Patches)
    → check_paths allowed roots patches ≡ none
    → All (λ p. (is_protected_path p.0 roots ≡ false) × IsAllowed allowed p.0) patches
unfolding check_paths
check_paths-none allowed roots [] h = tt
check_paths-none none roots ((path, hunks) ∷ patches) h =
    elim (Bool-cases (is_protected_path path roots)) [
      | inl e ↦ absurd (ground arith)
      | inr e ↦ ((e, tt), check_paths-none none roots patches (ground arith))
    ]
check_paths-none (some allowed) roots ((path, hunks) ∷ patches) h =
    elim (Bool-cases (is_protected_path path roots)) [
      | inl e ↦ absurd (ground arith)
      | inr e ↦ ((e, ground arith), check_paths-none (some allowed) roots patches (ground arith))
    ]

or_apply_failed_ok :
    (path : Text) (r : Apply.Applied Text) {content : Text}
    → or_apply_failed path r ≡ ok content
    → r ≡ Apply.Applied.ok content
or_apply_failed_ok path (Apply.Applied.ok c) h = cc
or_apply_failed_ok path (Apply.Applied.err e) h = absurd (cc)

module _ (server : Server) (parsers : Parsers) (repo : Text) where
  fetch_and_apply_ok :
      (branch : Text) (patches : Patches) (log log' : List Request) {files : List PatchedFile}
      → fetch_and_apply server parsers repo branch patches log ≡ (ok files, log')
      → Prepared server repo branch patches files
  unfolding fetch_and_apply
  fetch_and_apply_ok branch [] log log' h = rw (← (pure_ok _ log log' h).0) none_left
  fetch_and_apply_ok branch ((path, hunks) ∷ patches) log log' h =
      let (fetched_file, log1, h1, k1) = bind_ok (ask (get_file repo path branch) _) _ log log' h in
      let (patched, log2, h2, k2) =
        bind_ok (lift (or_apply_failed path (apply_patch fetched_file.0 hunks))) _ log1 log' k1 in
      let (files, log3, h3, k3) =
        bind_ok (fetch_and_apply server parsers repo branch patches) _ log2 log' k2 in
      rw (← (pure_ok _ log3 log' k3).0) (
        fetched path hunks log fetched_file.0 patched fetched_file.1
          (ask_ok (get_file repo path branch) _ log log1 h1).0
          (or_apply_failed_ok path _ (lift_ok _ log1 log2 h2).0)
          (fetch_and_apply_ok branch patches log2 log3 h3))

-- What has been established of a diff before anything is written.
pub record Gated (server : Server) (parsers : Parsers) (repo : Text)
    (allowed roots : Option (List Text)) (patches : Patches) (branch : Text)
    (files : List PatchedFile) : Type 0 where
  pub some_patch : is_empty patches ≡ false
  pub paths_pass :
      All
        (λ p. (is_protected_path p.0 roots ≡ false) × IsAllowed (normalize_allowed allowed) p.0)
        patches
  pub prepared : Prepared server repo branch patches files
  pub valid : validate_patched_files parsers (contents files) ≡ []

unless_error_ok : (o : Option OpenError) {u : Unit {0}} → unless_error o ≡ ok u → o ≡ none
unless_error_ok none h = refl
unless_error_ok (some e) h = absurd (cc)

is_empty_ok : {A : Type 0} (xs : List A) → is_empty xs ≡ true → xs ≡ []
is_empty_ok [] h = refl
is_empty_ok (x ∷ xs) h = absurd (cc)

module _ (server : Server) (parsers : Parsers) (repo : Text) where
  validated_ok :
      (files : List PatchedFile) {u : Unit {0}}
      → validated server parsers repo files ≡ ok u
      → validate_patched_files parsers (contents files) ≡ []
  unfolding validated
  validated_ok files h = is_empty_ok _ (ground arith)

  pub prepare-Gated :
      (allowed roots : Option (List Text)) (patches : Patches) (log log' : List Request)
      {branch sha : Text} {files : List PatchedFile}
      → prepare server parsers repo allowed roots patches log ≡ (ok (branch, sha, files), log')
      → Gated server parsers repo allowed roots patches branch files
  unfolding prepare
  prepare-Gated allowed roots patches log log' h =
      let (u1, log1, h1, k1) =
        bind_ok (lift (if is_empty patches then err no_patches else ok tt)) _ log log' h in
      let (u2, log2, h2, k2) =
        bind_ok (lift (unless_error (check_paths (normalize_allowed allowed) roots patches))) _ log1
          log' k1 in
      let (head, log3, h3, k3) = bind_ok (get_default_branch server parsers repo) _ log2 log' k2 in
      let (fs, log4, h4, k4) =
        bind_ok (fetch_and_apply server parsers repo head.0 patches) _ log3 log' k3 in
      let (u3, log5, h5, k5) = bind_ok (lift (validated server parsers repo fs)) _ log4 log' k4 in
      let same = (pure_ok _ log5 log' k5).0 in
      let first = (lift_ok _ log log1 h1).0 in
      let found : Gated server parsers repo allowed roots patches head.0 fs = record {
        some_patch = ground arith;
        paths_pass =
            check_paths-none _ roots patches (unless_error_ok _ (lift_ok _ log1 log2 h2).0);
        prepared = fetch_and_apply_ok server parsers repo head.0 patches log3 log4 h4;
        valid = validated_ok fs (lift_ok _ log4 log5 h5).0;
      } in
      subst
        (λ (t : Text × Text × List PatchedFile).
          Gated server parsers repo allowed roots patches t.0 t.2)
        same found
