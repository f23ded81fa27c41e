-- ===== src/Messages.antt =====
-- The values of `Run.processing_status`, the exceptions that reach agent/processor.py, and the
-- texts that it stores: one constructor for each f-string, with the values put into it.
use llopster.Base.{ℕ, Text}
use llopster.Base.Int.{ℤ}
use llopster.Github.Client.{OpenError}

pub data Status : Type 0 where
  pending queued triaging collecting investigating generating posting done failed skipped : Status

pub data Exn : Type 0 where
  -- `int(text)`
  value_error : Text → Exn
  -- `datetime.fromisoformat`
  isoformat_error : Exn
  -- a date out of range
  overflow_error : Exn
  -- a session with the database
  db_error : Exn
  -- an attribute of a missing service
  attribute_error : Exn
  open_error : OpenError → Exn
  -- what a collaborator raises
  raised : Text → Exn

pub data Message : Type 0 where
  not_firing : (status : Text) → Message
  informational : (severity : Text) → Message
  ignored_alertname : (alertname : Text) → Message
  suspended_object : (display : Text) → Message
  -- The names of the known services are left out.
  unmapped_service : (service : Text) → Message
  runs_ceiling : (count : ℕ) → (ceiling : ℤ) → Message
  -- in hundred-millionths of a dollar
  usd_ceiling : (spend : ℕ) → (ceiling : ℤ) → Message
  duplicate_pending_pr : (run_id pr_url : Text) → Message
  backed_off : (run_id : Text) → Status → (minutes : ℤ) → Message
  within_deploy_grace : (pr_url : Text) → (merged_at : ℕ) → (minutes : ℤ) → Message
  no_api_key : Message
  triage_skip : (confidence : ℕ) → (reasoning : Text) → Message
  patch_verification_failed : OpenError → Message
  awaiting_dispatch : Message
  exception : Exn → Message
  no_github_token : Message
  no_actionable_patch : Message
  below_threshold : (confidence : ℕ) → (threshold : ℤ) → Message
  pr_creation_error : Exn → Message
  notifications_disabled : Message
  notification_error : (provider error : Text) → Message
