-- ===== src/Process/Post.antt =====
-- agent/processor.py, `process_alert`: what follows the synthesis call, in reverse order of the
-- text, each part ending with a call of the part behind it.
use llopster.Base.{Option, none, some, List, [], ◌∷◌, ◌++◌, Bool, true, false, if◌then◌else◌, Text}
use llopster.Base.Int.{ℤ, pos, ltb_int}
use llopster.Alerts.{ParsedAlert}
use llopster.Github.Client
use llopster.Github.Client.{PullRequest, OpenError, Request, Server, is_patch_apply_error, open_pr}
use llopster.Github.Diff.{proposal_has_patch}
use llopster.Github.Paths.{discover_chart_roots}
use llopster.Messages.{
  done, failed, Message, Exn, open_error, attribute_error, patch_verification_failed,
  no_github_token, no_actionable_patch, below_threshold, pr_creation_error, notifications_disabled,
  notification_error,
}
use llopster.Services.{ServiceConfig, same_repo_version_ref_path}
use llopster.Store.{Investigation, PatchProposal, update_status, record_pr, record_notification}
use llopster.Process.World.{
  Env, M, Result, ok, raise, Answer, returned, raised, github_called, notified, lift, attempt, emit,
  write, ◌>>=◌, ◌>>◌,
}

-- The settings that are read at the start.
pub record Settings : Type 0 where
  pub confidence_threshold : ℤ
  pub lookback_minutes : Option ℤ
  pub extra_ignore : List Text
  pub triage_enabled : Bool
  pub triage_min_confidence : ℤ
  pub investigation_enabled : Bool
  pub open_prs_as_draft : Bool

abbrev widen : Option Text → List Text → List Text
widen none files = files
widen (some path) files = files ++ (path ∷ [])

abbrev allow_files : Option Text → List Text → Option (List Text)
allow_files version_ref [] = none
allow_files version_ref (file ∷ files) = some (widen version_ref (file ∷ files))

-- The files that the investigation named, with the version reference of an indirect delivery.
unfoldable pub allowed_paths : ServiceConfig → Option Investigation → Option (List Text)
unfolding same_repo_version_ref_path
allowed_paths service none = none
allowed_paths service (some investigation) =
    allow_files (same_repo_version_ref_path service) investigation.affected_files

module _ (env : Env) (run_id : Text) (alert : ParsedAlert) where
  abbrev pub notify_outcome : Text → Answer (Unit {0}) → Bool × Option Message
  notify_outcome provider (returned _) = (true, none)
  notify_outcome provider (raised e) = (false, some (notification_error provider e))

  abbrev pub notify_with :
      PatchProposal
      → Option Text
      → Option (Text × (PatchProposal → Option Text → Answer (Unit {0})))
      → M (Unit {0})
  notify_with proposal pr_url none = do
    write (record_notification run_id false (some notifications_disabled))
    write (update_status run_id done none)
  notify_with proposal pr_url (some (provider, post_patch)) = do
    emit (notified pr_url)
    write (
        record_notification run_id (notify_outcome provider (post_patch proposal pr_url)).0
          (notify_outcome provider (post_patch proposal pr_url)).1)
    write (update_status run_id done none)

  -- The notification, and the end of the run.
  unfoldable pub notify_and_finish : PatchProposal → Option Text → M (Unit {0})
  unfolding record_notification update_status
  notify_and_finish proposal pr_url = notify_with proposal pr_url env.notifier

  -- A pull request that was not opened is recorded with the reason.
  unfoldable pub without_pr : PatchProposal → Option Text → Message → M (Unit {0})
  unfolding notify_and_finish record_pr
  without_pr proposal pr_url reason = do
    write (record_pr run_id none none none (some reason))
    notify_and_finish proposal pr_url

  abbrev pub verification_failed : OpenError → Bool → PatchProposal → Option Text → M (Unit {0})
  verification_failed e true proposal pr_url = do
    write (record_pr run_id none none none (some (patch_verification_failed e)))
    write (update_status run_id failed (some (patch_verification_failed e)))
  verification_failed e false proposal pr_url =
      without_pr proposal pr_url (pr_creation_error (open_error e))

  -- The two `except` clauses; `pr_url` is what was assigned when the exception came.
  unfoldable pub handle_pr_error : PatchProposal → Option Text → Exn → M (Unit {0})
  unfolding without_pr is_patch_apply_error update_status record_pr
  handle_pr_error proposal pr_url (open_error e) =
      verification_failed e (is_patch_apply_error e) proposal pr_url
  handle_pr_error proposal pr_url e = without_pr proposal pr_url (pr_creation_error e)

  abbrev pub as_result : Client.Outcome PullRequest → Result PullRequest
  as_result (Client.Outcome.ok pr) = ok pr
  as_result (Client.Outcome.err e) = raise (open_error e)

  -- `github.open_pr(…)` for a service; a service that is missing has no attributes.
  unfoldable pub call_open_pr :
      Server → Bool → Option ServiceConfig → Option Investigation → PatchProposal → M PullRequest
  unfolding allowed_paths discover_chart_roots
  call_open_pr server draft none investigation proposal = lift (raise attribute_error)
  call_open_pr server draft (some service) investigation proposal =
      let tree = env.chart_manifests service.codebase_path in
      let (outcome, requests) =
        open_pr server env.parsers service.github_repo env.branch_timestamp alert proposal.text
          draft (allowed_paths service investigation) (some (discover_chart_roots tree.0 tree.1))
          [] in
      do emit (github_called requests); lift (as_result outcome)

  abbrev pub after_record : PatchProposal → PullRequest → Result (Unit {0}) → M (Unit {0})
  after_record proposal pr (ok _) = notify_and_finish proposal (some pr.url)
  after_record proposal pr (raise e) = handle_pr_error proposal (some pr.url) e

  abbrev pub after_open : PatchProposal → Result PullRequest → M (Unit {0})
  after_open proposal (ok pr) = do
    recorded ←
        attempt (write (record_pr run_id (some pr.url) (some pr.number) (some pr.branch) none))
    after_record proposal pr recorded
  after_open proposal (raise e) = handle_pr_error proposal none e

  abbrev pub open_with :
      Settings
      → Option ServiceConfig
      → Option Investigation
      → PatchProposal
      → Option Server
      → M (Unit {0})
  open_with settings service investigation proposal none = without_pr proposal none no_github_token
  open_with settings service investigation proposal (some server) =
      if proposal_has_patch proposal.text
      then if ltb_int (pos proposal.confidence) settings.confidence_threshold
        then without_pr proposal none
            (below_threshold proposal.confidence settings.confidence_threshold)
        else (do
          opened ←
              attempt
                (call_open_pr server settings.open_prs_as_draft service investigation proposal)
          after_open proposal opened)
      else without_pr proposal none no_actionable_patch

  -- Whether to open a pull request at all.
  unfoldable pub open_phase :
      Settings → Option ServiceConfig → Option Investigation → PatchProposal → M (Unit {0})
  unfolding call_open_pr handle_pr_error notify_and_finish without_pr record_pr proposal_has_patch
  open_phase settings service investigation proposal =
      open_with settings service investigation proposal env.github
