-- ===== src/Process/Sound/Gates.antt =====
-- agent/processor.py: the gates and agent/cost_breaker.py, under the rules of `Reaches`.
use llopster.Base.{ℕ, ◌≡◌, refl, Option, none, some, ◌&&◌, ltb, Text}
use llopster.Base.Int.{ℤ, pos, ltb_int, parse_int}
use llopster.Messages.{Message}
use llopster.Services.{get_service}
use llopster.Store.{Run, update_status}
use llopster.Store.Dedup.{PreviousAttempt}
use llopster.Store.Stages.{status_because_write}
use llopster.Process.Breaker.{
  resolve_ceiling, check_cost_breaker, ceilings_check, runs_check, usd_check,
}
use llopster.Process.Analyse.{Patcher}
use llopster.Process.Gates.{
  Options, patch_with, patcher_gate, merged_gate, previous_gate, grace_gate, recent_gate,
  backoff_gate, blocker_gate, dedup_gate, tripped_gate, breaker_gate, skip_gate, prefilter,
}
use llopster.Process.Sound.{
  Ok, Ends, bind, bind_Ok, lift-Ok, pure-Ok, query-Ok, attempt-Ok, trip_Ok, if_Ok, if_Ends, settle,
}
use llopster.Process.Reach.{Call}
use llopster.Process.Sound.Stages.{triage_phase-Ends}

module _ (c : Call) (options : Options) where
  open c use {env, alert, settings, run_id}

  patch_with-Ends :
      (previous : Option PreviousAttempt) (patcher : Option Patcher)
      → env.patcher ≡ patcher
      → Ends c (patch_with env run_id alert options settings previous patcher)
  unfolding update_status
  patch_with-Ends previous none e =
      settle c _ (λ run. refl) (status_because_write _ _) (λ run. refl)
  patch_with-Ends previous (some patcher) e =
      triage_phase-Ends c (get_service alert.service env.services) refl previous patcher e

  patcher_gate-Ends :
      (previous : Option PreviousAttempt)
      → Ends c (patcher_gate env run_id alert options settings previous)
  unfolding patcher_gate
  patcher_gate-Ends previous = patch_with-Ends previous env.patcher refl

  merged_gate-Ends :
      (minutes : ℤ) (run : Run) (merged_at : Option ℕ)
      → Ends c (merged_gate env run_id alert options settings minutes run merged_at)
  unfolding update_status
  merged_gate-Ends minutes run none = patcher_gate-Ends none
  merged_gate-Ends minutes run (some merged_at) = bind c _ _ (lift-Ok c _) λ until.
      if_Ends c (ltb env.now_grace until) _ _
        (λ _. settle c _ (λ run. refl) (status_because_write _ _) (λ run. refl))
        λ _. patcher_gate-Ends _

  previous_gate-Ends :
      (minutes : ℤ) (previous : Option Run)
      → Ends c (previous_gate env run_id alert options settings minutes previous)
  previous_gate-Ends minutes none = patcher_gate-Ends none
  previous_gate-Ends minutes (some run) = merged_gate-Ends minutes run run.pr_merged_at

  grace_gate-Ends : Ends c (grace_gate env run_id alert options settings)
  unfolding grace_gate
  grace_gate-Ends = bind c _ _ (query-Ok c _) λ raw.
      bind c _ _ (query-Ok c _)
        λ previous. bind c _ _ (lift-Ok c _) λ minutes. previous_gate-Ends minutes previous

  recent_gate-Ends :
      (minutes : ℤ) (recent : Option Run)
      → Ends c (recent_gate env run_id alert options settings minutes recent)
  unfolding update_status
  recent_gate-Ends minutes none = grace_gate-Ends
  recent_gate-Ends minutes (some run) =
      settle c _ (λ run. refl) (status_because_write _ _) (λ run. refl)

  backoff_gate-Ends :
      (raw : Option Text) → Ends c (backoff_gate env run_id alert options settings raw)
  unfolding backoff_gate
  backoff_gate-Ends raw = bind c _ _ (lift-Ok c _) λ minutes.
      if_Ends c (options.enforce_backoff && ltb_int (pos 0) minutes) _ _
        (λ _.
          bind c _ _ (lift-Ok c _)
            λ since. bind c _ _ (query-Ok c _) λ recent. recent_gate-Ends minutes recent)
        λ _. grace_gate-Ends

  blocker_gate-Ends :
      (blocker : Option Run) (raw : Option Text)
      → Ends c (blocker_gate env run_id alert options settings blocker raw)
  unfolding update_status
  blocker_gate-Ends none raw = backoff_gate-Ends raw
  blocker_gate-Ends (some run) raw =
      settle c _ (λ run. refl) (status_because_write _ _) (λ run. refl)

  dedup_gate-Ends : Ends c (dedup_gate env run_id alert options settings)
  unfolding dedup_gate
  dedup_gate-Ends =
      bind c _ _ (query-Ok c _)
        λ blocker. bind c _ _ (query-Ok c _) λ raw. blocker_gate-Ends blocker raw

  usd_check-Ok : (max_usd : ℤ) → Ok c (usd_check env max_usd)
  unfolding usd_check
  usd_check-Ok max_usd =
      if_Ok c (ltb_int (pos 0) max_usd) _ _
        (λ _.
          bind_Ok c _ _ (lift-Ok c _) λ since. bind_Ok c _ _ (query-Ok c _) λ spend. pure-Ok c _)
        λ _. pure-Ok c _

  runs_check-Ok : (max_runs max_usd : ℤ) → Ok c (runs_check env max_runs max_usd)
  unfolding runs_check
  runs_check-Ok max_runs max_usd =
      if_Ok c (ltb_int (pos 0) max_runs) _ _
        (λ _. bind_Ok c _ _ (lift-Ok c _) λ since. bind_Ok c _ _ (query-Ok c _) λ count.
          if_Ok c (ltb_int (pos count) max_runs) _ _ (λ _. usd_check-Ok max_usd) λ _. pure-Ok c _)
        λ _. usd_check-Ok max_usd

  check_cost_breaker-Ok : Ok c (check_cost_breaker env)
  unfolding check_cost_breaker ceilings_check
  check_cost_breaker-Ok =
      bind_Ok c _ _
        (attempt-Ok c _ (
          bind_Ok c _ _ (query-Ok c _) λ raw_runs. bind_Ok c _ _ (query-Ok c _) λ raw_usd.
            runs_check-Ok (resolve_ceiling parse_int raw_runs env.config.max_runs_per_hour)
              (resolve_ceiling env.parse_usd raw_usd env.config.max_usd_per_day)))
        λ outcome. pure-Ok c _

  tripped_gate-Ends :
      (reason : Option Message) → Ends c (tripped_gate env run_id alert options settings reason)
  unfolding update_status
  tripped_gate-Ends none = dedup_gate-Ends
  tripped_gate-Ends (some reason) =
      bind c _ _ (trip_Ok c) λ _. settle c _ (λ run. refl) (status_because_write _ _) (λ run. refl)

  breaker_gate-Ends : Ends c (breaker_gate env run_id alert options settings)
  unfolding breaker_gate
  breaker_gate-Ends =
      if_Ends c options.enforce_cost_breaker _ _
        (λ _. bind c _ _ check_cost_breaker-Ok λ reason. tripped_gate-Ends reason)
        λ _. dedup_gate-Ends

  skip_gate-Ends :
      (reason : Option Message) → Ends c (skip_gate env run_id alert options settings reason)
  unfolding update_status
  skip_gate-Ends none = breaker_gate-Ends
  skip_gate-Ends (some reason) = settle c _ (λ run. refl) (status_because_write _ _) (λ run. refl)

  pub prefilter-Ends : Ends c (prefilter env run_id alert options settings)
  unfolding prefilter
  prefilter-Ends = skip_gate-Ends _
