-- ===== src/Github/Client.antt =====
-- integrations/github_client.py: opening a pull request. The GitHub server is a parameter whose
-- answer may depend on all earlier requests. A method returns its value or exception with the list
-- of the requests made. The body of the pull request is left out.
pub mod Laws
pub mod Gated
pub mod Gates
use llopster.Base.{
  ℕ, ◌+◌, ◌≡◌, refl, Option, none, some, List, [], ◌∷◌, ◌++◌, Bool, true, false, ◌&&◌, ◌||◌, not,
  map, is_empty, if◌then◌else◌, leb, ◌==◌, Text, lit, member, lower, strip_by,
}
use llopster.Alerts.{ParsedAlert}
use llopster.Github.Paths.{normalize_repo_path, is_protected_path}
use llopster.Github.Diff.{Hunk, Patches, extract_diff, parse_file_patches}
use llopster.Github.Apply
use llopster.Github.Apply.{ApplyError, apply_patch, Applied}
use llopster.Github.Validate.{Parsers, validate_patched_files}

pub record PullRequest : Type 0 where
  pub number : ℕ
  pub url : Text
  pub branch : Text

-- The exceptions that `open_pr` raises.
pub data OpenError : Type 0 where
  no_patches : OpenError
  protected_path : (path : Text) → OpenError
  not_allowed : (path : Text) → OpenError
  apply_failed : (path : Text) → ApplyError → OpenError
  invalid_files : List (Text × Text) → OpenError
  http_error : Text → OpenError

-- `PatchApplyError` and its subclasses
unfoldable pub is_patch_apply_error : OpenError → Bool
is_patch_apply_error no_patches = false
is_patch_apply_error (protected_path _) = true
is_patch_apply_error (not_allowed _) = true
is_patch_apply_error (apply_failed _ ApplyError.index_error) = false
is_patch_apply_error (apply_failed _ (ApplyError.outside_range _ _)) = true
is_patch_apply_error (apply_failed _ (ApplyError.context_mismatch _ _ _)) = true
is_patch_apply_error (invalid_files _) = true
is_patch_apply_error (http_error _) = false

pub data Request : Type 0 where
  get_repo : (repo : Text) → Request
  get_ref : (repo branch : Text) → Request
  get_file : (repo path ref : Text) → Request
  create_branch : (repo branch sha : Text) → Request
  update_file : (repo path content file_sha branch message : Text) → Request
  create_pr : (repo title head base : Text) → (draft : Bool) → Request

-- A request that changes the repository.
abbrev pub is_write : Request → Bool
is_write (get_repo _) = false
is_write (get_ref _ _) = false
is_write (get_file _ _ _) = false
is_write (create_branch _ _ _) = true
is_write (update_file _ _ _ _ _ _) = true
is_write (create_pr _ _ _ _ _) = true

-- What the server answers, or the exception of `raise_for_status`, of the transport or of
-- decoding the answer.
pub data Reply {ℓ} (A : Type ℓ) : Type ℓ where
  returned : A → Reply A
  raised : Text → Reply A

pub record Server : Type 0 where
  pub default_branch : List Request → Text → Reply Text
  pub ref_sha : List Request → Text → Text → Reply Text
  pub file : List Request → Text → Text → Text → Reply (Text × Text)
  pub branch_created : List Request → Reply (Unit {0})
  pub file_updated : List Request → Reply (Unit {0})
  pub pr_created : List Request → Reply (ℕ × Text)

pub data Outcome {ℓ} (A : Type ℓ) : Type ℓ where
  ok : A → Outcome A
  err : OpenError → Outcome A

abbrev pub Git : Type 0 → Type 0
Git A = List Request → Outcome A × List Request

abbrev pub continue : {A B : Type 0} → Outcome A → (A → Git B) → Git B
continue (ok a) f log = f a log
continue (err e) f log = (err e, log)

pub pure : {A : Type 0} → A → Git A
pure a log = (ok a, log)

-- A value or an exception that is at hand.
pub lift : {A : Type 0} → Outcome A → Git A
lift o log = (o, log)

abbrev pub as_outcome : {A : Type 0} → Reply A → Outcome A
as_outcome (returned a) = ok a
as_outcome (raised e) = err (http_error e)

-- A request is made whatever its answer is.
pub ask : {A : Type 0} → Request → (List Request → Reply A) → Git A
ask request answer log = (as_outcome (answer log), log ++ (request ∷ []))

infixl 5 ◌>>=◌ ◌>>◌
-- To open this is to open `pure`, `lift` and `ask`.
unfoldable pub ◌>>=◌ : {A B : Type 0} → Git A → (A → Git B) → Git B
unfolding pure lift ask
◌>>=◌ m f log = continue (m log).0 f (m log).1

abbrev pub ◌>>◌ : {A B : Type 0} → Git A → Git B → Git B
m >> n = m >>= λ _. n

-- `[^a-zA-Z0-9-]` becomes "-"
abbrev pub slug_char : ℕ → ℕ
slug_char c =
    if (leb b'a' c && leb c b'z') || (leb b'A' c && leb c b'Z') || (leb b'0' c && leb c b'9')
    then c
    else b'-'

-- `timestamp` is the current time as "%Y%m%d-%H%M%S".
unfoldable pub make_branch_name : Text → ParsedAlert → Text
make_branch_name timestamp alert =
    lit "llopster/"
    ++ (strip_by (λ c. c == b'-') (lower (map slug_char alert.alertname)) ++ (b'-' ∷ timestamp))

abbrev pub title : ParsedAlert → Text
title alert = lit "fix(" ++ (alert.service ++ (lit "): " ++ alert.alertname))

-- The loop over the files in front of the first request.
unfoldable pub check_paths : Option (List Text) → Option (List Text) → Patches → Option OpenError
check_paths allowed_norm chart_roots [] = none
check_paths allowed_norm chart_roots ((file_path, hunks) ∷ patches) =
    let rest = check_paths allowed_norm chart_roots patches in
    if is_protected_path file_path chart_roots
    then some (protected_path file_path)
    else elim allowed_norm [
      | none ↦ rest
      | some allowed ↦
          if member (normalize_repo_path file_path) allowed
          then rest
          else some (not_allowed file_path)
    ]

-- `{_normalize_repo_path(p) for p in allowed_paths}`
abbrev pub normalize_allowed : Option (List Text) → Option (List Text)
normalize_allowed none = none
normalize_allowed (some paths) = some (map normalize_repo_path paths)

-- (path, content, file_sha)
abbrev pub PatchedFile : Type 0
PatchedFile = Text × Text × Text

abbrev pub or_apply_failed : Text → Applied Text → Outcome Text
or_apply_failed path (Applied.ok patched) = ok patched
or_apply_failed path (Applied.err e) = err (apply_failed path e)

abbrev pub contents : List PatchedFile → List (Text × Text)
contents = map (λ (path, content, _). (path, content))

-- An exception, if there is one.
abbrev pub unless_error : Option OpenError → Outcome (Unit {0})
unless_error none = ok tt
unless_error (some e) = err e

module _ (server : Server) (parsers : Parsers) (repo : Text) where
  unfoldable pub get_default_branch : Git (Text × Text)
  get_default_branch = do
    branch ← ask (get_repo repo) (λ log. server.default_branch log repo)
    sha ← ask (get_ref repo branch) (λ log. server.ref_sha log repo branch)
    pure (branch, sha)

  -- Every file is fetched and patched, in order.
  unfoldable pub fetch_and_apply : Text → Patches → Git (List PatchedFile)
  fetch_and_apply branch [] = pure []
  fetch_and_apply branch ((file_path, hunks) ∷ patches) = do
    (original, file_sha) ←
        ask (get_file repo file_path branch) (λ log. server.file log repo file_path branch)
    patched ← lift (or_apply_failed file_path (apply_patch original hunks))
    rest ← fetch_and_apply branch patches
    pure ((file_path, patched, file_sha) ∷ rest)

  unfoldable pub validated : List PatchedFile → Outcome (Unit {0})
  validated files =
      let errors = validate_patched_files parsers (contents files) in
      if is_empty errors then ok tt else err (invalid_files errors)

  unfoldable pub update_files : ParsedAlert → Text → List PatchedFile → Git (Unit {0})
  update_files alert branch [] = pure tt
  update_files alert branch ((path, content, sha) ∷ files) = do
    ask (update_file repo path content sha branch (title alert ++ lit " — applied llopster patch"))
        server.file_updated
    update_files alert branch files

  -- Everything in front of the first write.
  unfoldable pub prepare :
      Option (List Text) → Option (List Text) → Patches → Git (Text × Text × List PatchedFile)
  unfolding get_default_branch fetch_and_apply validated check_paths
  prepare allowed_paths chart_roots patches = do
    lift (if is_empty patches then err no_patches else ok tt)
    lift (unless_error (check_paths (normalize_allowed allowed_paths) chart_roots patches))
    (default_branch, base_sha) ← get_default_branch
    files ← fetch_and_apply default_branch patches
    lift (validated files)
    pure (default_branch, base_sha, files)

  -- The writes.
  unfoldable pub publish :
      ParsedAlert → Bool → Text → Text × Text × List PatchedFile → Git PullRequest
  unfolding update_files
  publish alert draft branch (default_branch, base_sha, files) = do
    ask (create_branch repo branch base_sha) server.branch_created
    update_files alert branch files
    (number, url) ← ask (create_pr repo (title alert) branch default_branch draft) server.pr_created
    pure (record { number = number; url = url; branch = branch })

  unfoldable pub open_pr :
      Text
      → ParsedAlert
      → (proposal_text : Text) → Bool
      → Option (List Text)
      → Option (List Text)
      → Git PullRequest
  unfolding prepare publish make_branch_name
  open_pr timestamp alert proposal_text draft allowed_paths chart_roots = do
    prepared ← prepare allowed_paths chart_roots (parse_file_patches (extract_diff proposal_text))
    publish alert draft (make_branch_name timestamp alert) prepared
