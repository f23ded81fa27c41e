-- ===== src/Process/Sound/Post.antt =====
-- agent/processor.py: the outcome is posted, under the rules of `Reaches`.
use llopster.Base.{ℕ, ◌≡◌, refl, Option, none, some, Bool, true, false, Text}
use llopster.Base.Int.{pos, ltb_int}
use llopster.Messages.{
  Message, Exn, patch_verification_failed, open_error, raised, value_error, overflow_error,
  isoformat_error, attribute_error, db_error,
}
use llopster.Store.{PatchProposal, Investigation, record_notification, record_pr, update_status}
use llopster.Store.Stages.{status_write, status_because_write, pr_write, notification_write}
use llopster.Process.World.{Result, ok, raise, Answer, write}
use llopster.Process.Post.{
  notify_and_finish, notify_with, without_pr, verification_failed, handle_pr_error, after_record,
  after_open, call_open_pr, open_with, open_phase,
}
use llopster.Services.{ServiceConfig, get_service}
use llopster.Github.Client.{PullRequest, OpenError, Server}
use llopster.Github.Diff.{proposal_has_patch}
use llopster.Process.Reach.{Call, Answered, opens, notifies}
use llopster.Process.Sound.{
  Ok, Ends, bind, bind_Ok, lift-Ok, emit-Ok, attempt-Ok, modify-Ok, if_Ends, settle,
}

module _ (c : Call) where
  open c use {env, alert, settings, run_id}

  recorded-Ok :
      (pr_url : Option Text) (pr_number : Option ℕ) (pr_branch : Option Text)
      (reason : Option Message)
      → Ok c (write (record_pr run_id pr_url pr_number pr_branch reason))
  unfolding record_pr
  recorded-Ok pr_url pr_number pr_branch reason =
      modify-Ok c _ (λ run. refl) (pr_write pr_url pr_number pr_branch reason)

  module _ (proposal : PatchProposal) where
    notify_with-Ends :
        (pr_url : Option Text)
        (n : Option (Text × (PatchProposal → Option Text → Answer (Unit {0}))))
        → Ends c (notify_with env run_id alert proposal pr_url n)
    unfolding record_notification update_status
    notify_with-Ends pr_url none =
        bind c _ _ (modify-Ok c _ (λ run. refl) (notification_write _ _))
          λ _. settle c _ (λ run. refl) (status_write _) (λ run. refl)
    notify_with-Ends pr_url (some (provider, post_patch)) = bind c _ _ (emit-Ok c _ notifies) λ _.
        bind c _ _ (modify-Ok c _ (λ run. refl) (notification_write _ _))
          λ _. settle c _ (λ run. refl) (status_write _) (λ run. refl)

    notify_and_finish-Ends :
        (pr_url : Option Text) → Ends c (notify_and_finish env run_id alert proposal pr_url)
    unfolding notify_and_finish
    notify_and_finish-Ends pr_url = notify_with-Ends pr_url env.notifier

    without_pr-Ends :
        (pr_url : Option Text) (reason : Message)
        → Ends c (without_pr env run_id alert proposal pr_url reason)
    unfolding without_pr record_pr
    without_pr-Ends pr_url reason =
        bind c _ _ (recorded-Ok none none none (some reason)) λ _. notify_and_finish-Ends pr_url

    verification_failed-Ends :
        (e : OpenError) (b : Bool) (pr_url : Option Text)
        → Ends c (verification_failed env run_id alert e b proposal pr_url)
    unfolding record_pr update_status
    verification_failed-Ends e true pr_url =
        bind c _ _ (recorded-Ok none none none (some (patch_verification_failed e)))
          λ _. settle c _ (λ run. refl) (status_because_write _ _) (λ run. refl)
    verification_failed-Ends e false pr_url = without_pr-Ends pr_url _

    handle_pr_error-Ends :
        (pr_url : Option Text) (e : Exn)
        → Ends c (handle_pr_error env run_id alert proposal pr_url e)
    unfolding handle_pr_error
    handle_pr_error-Ends pr_url (open_error e) = verification_failed-Ends e _ pr_url
    handle_pr_error-Ends pr_url (raised _) = without_pr-Ends pr_url _
    handle_pr_error-Ends pr_url (value_error _) = without_pr-Ends pr_url _
    handle_pr_error-Ends pr_url isoformat_error = without_pr-Ends pr_url _
    handle_pr_error-Ends pr_url overflow_error = without_pr-Ends pr_url _
    handle_pr_error-Ends pr_url attribute_error = without_pr-Ends pr_url _
    handle_pr_error-Ends pr_url db_error = without_pr-Ends pr_url _

    after_record-Ends :
        (pr : PullRequest) (r : Result (Unit {0}))
        → Ends c (after_record env run_id alert proposal pr r)
    after_record-Ends pr (ok _) = notify_and_finish-Ends _
    after_record-Ends pr (raise e) = handle_pr_error-Ends _ e

    after_open-Ends : (r : Result PullRequest) → Ends c (after_open env run_id alert proposal r)
    unfolding record_pr
    after_open-Ends (ok pr) =
        bind c _ _
          (attempt-Ok c _ (recorded-Ok (some pr.url) (some pr.number) (some pr.branch) none))
          λ r. after_record-Ends pr r
    after_open-Ends (raise e) = handle_pr_error-Ends none e

    module _ (investigation : Option Investigation)
        (answered : Answered env alert settings proposal investigation) where
      call_open_pr-Ok :
          (server : Server) (service : Option ServiceConfig)
          → env.github ≡ some server
          → get_service alert.service env.services ≡ service
          → proposal_has_patch proposal.text ≡ true
          → ltb_int (pos proposal.confidence) settings.confidence_threshold ≡ false
          → Ok c (
              call_open_pr env run_id alert server settings.open_prs_as_draft service investigation
                proposal)
      unfolding call_open_pr
      call_open_pr-Ok server none g s p k = lift-Ok c _
      call_open_pr-Ok server (some service) g s p k =
          bind_Ok c _ _
            (emit-Ok c _ (
              opens (record {
                server = server;
                github = g;
                service = service;
                registered = s;
                proposal = proposal;
                investigation = investigation;
                answered = answered;
                patch = p;
                confident = k;
                same = refl;
              })))
            λ _. lift-Ok c _

      open_with-Ends :
          (github : Option Server) (service : Option ServiceConfig)
          → env.github ≡ github
          → get_service alert.service env.services ≡ service
          → Ends c (open_with env run_id alert settings service investigation proposal github)
      open_with-Ends none service g s = without_pr-Ends none _
      open_with-Ends (some server) service g s =
          if_Ends c _ _ _
            (λ p.
              if_Ends c _ _ _ (λ _. without_pr-Ends none _)
                λ k.
                  bind c _ _ (attempt-Ok c _ (call_open_pr-Ok server service g s p k))
                    λ r. after_open-Ends r)
            λ _. without_pr-Ends none _

      pub open_phase-Ends :
          (service : Option ServiceConfig)
          → get_service alert.service env.services ≡ service
          → Ends c (open_phase env run_id alert settings service investigation proposal)
      unfolding open_phase
      open_phase-Ends service s = open_with-Ends env.github service refl s
