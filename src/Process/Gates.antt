-- ===== src/Process/Gates.antt =====
-- agent/processor.py, `process_alert`: the settings and the gates in front of any model call, in
-- reverse order of the text.
use llopster.Base.{
  ℕ, Option, none, some, List, [], ◌∷◌, Bool, ◌&&◌, if◌then◌else◌, is_empty, ltb, Text, lit, lower,
  strip, member,
}
use llopster.Base.Int.{ℤ, pos, ltb_int}
use llopster.Alerts.{ParsedAlert, compute_dedup_key}
use llopster.Filter.{should_skip, parse_extra_ignore_setting}
use llopster.Messages.{
  queued, Message, duplicate_pending_pr, backed_off, within_deploy_grace, no_api_key,
}
use llopster.Services.{get_service}
use llopster.Store.{Run, get_setting, update_status}
use llopster.Store.Dedup.{
  PreviousAttempt, previous_attempt_from_run, find_blocking_open_pr_run,
  find_recent_unproductive_run, find_previous_merged_attempt,
}
use llopster.Process.World.{
  Env, M, Result, ok, raise, pure, lift, query, write, int, plus_minutes, minus_minutes, ◌>>=◌,
  ◌>>◌,
}
use llopster.Process.Breaker.{manual, set_processing_mode, check_cost_breaker}
use llopster.Process.Post.{Settings}
use llopster.Process.Analyse.{Patcher, skip, triage_phase}

-- `(await get_setting(…)) or default`, as a number
abbrev pub int_setting : Option Text → ℤ → Result ℤ
int_setting none default = ok default
int_setting (some raw) default = if is_empty raw then ok default else int raw

abbrev pub true_values : List Text
true_values = lit "1" ∷ lit "true" ∷ lit "yes" ∷ lit "on" ∷ []

abbrev pub flag_setting : Option Text → Bool → Bool
flag_setting none default = default
flag_setting (some raw) default = member (lower (strip raw)) true_values

abbrev pub to_some : Result ℤ → Result (Option ℤ)
to_some (ok n) = ok (some n)
to_some (raise e) = raise e

-- The argument wins; a stored value is a number even where it is blank.
abbrev pub lookback_setting : Option ℤ → Option Text → Result (Option ℤ)
lookback_setting (some minutes) stored = ok (some minutes)
lookback_setting none none = ok none
lookback_setting none (some raw) = to_some (int raw)

abbrev pub url_of : Run → Text
url_of run = elim run.pr_url [ none ↦ lit "None" | some url ↦ url ]

-- The keyword arguments of `process_alert`.
pub record Options : Type 0 where
  pub lookback_minutes : Option ℤ
  pub enforce_cost_breaker : Bool
  pub enforce_backoff : Bool

module _ (env : Env) (run_id : Text) (alert : ParsedAlert) (options : Options) where
  unfoldable pub read_settings : M Settings
  unfolding get_setting parse_extra_ignore_setting
  read_settings = do
    threshold_raw ← query (get_setting (lit "patch_confidence_threshold"))
    confidence_threshold ← lift (int_setting threshold_raw env.config.patch_confidence_threshold)
    db_lookback ← query (get_setting (lit "log_lookback_minutes"))
    lookback_minutes ← lift (lookback_setting options.lookback_minutes db_lookback)
    extra_ignore ← query (get_setting (lit "ignore_alertnames"))
    triage_enabled ← query (get_setting (lit "triage_enabled"))
    triage_min_confidence_raw ← query (get_setting (lit "triage_min_confidence"))
    investigation_enabled ← query (get_setting (lit "investigation_enabled"))
    open_prs_as_draft ← query (get_setting (lit "open_prs_as_draft"))
    triage_min_confidence ←
        lift (int_setting triage_min_confidence_raw env.config.triage_min_confidence)
    pure (record {
      confidence_threshold = confidence_threshold;
      lookback_minutes = lookback_minutes;
      extra_ignore = parse_extra_ignore_setting extra_ignore;
      triage_enabled = flag_setting triage_enabled env.config.triage_enabled;
      triage_min_confidence = triage_min_confidence;
      investigation_enabled = flag_setting investigation_enabled env.config.investigation_enabled;
      open_prs_as_draft = flag_setting open_prs_as_draft env.config.open_prs_as_draft;
    })

  module _ (settings : Settings) where
    -- Without a patch generator the run ends here.
    abbrev pub patch_with : Option PreviousAttempt → Option Patcher → M (Unit {0})
    patch_with previous none = skip run_id no_api_key
    patch_with previous (some patcher) =
        triage_phase env run_id alert settings (get_service alert.service env.services) previous
          patcher

    unfoldable pub patcher_gate : Option PreviousAttempt → M (Unit {0})
    unfolding triage_phase get_service
    patcher_gate previous = patch_with previous env.patcher

    abbrev pub judge_merged : ℤ → Run → ℕ → ℕ → M (Unit {0})
    judge_merged minutes run merged_at until =
        if ltb env.now_grace until
        then skip run_id (within_deploy_grace (url_of run) merged_at minutes)
        else patcher_gate (some (previous_attempt_from_run run merged_at))

    abbrev pub merged_gate : ℤ → Run → Option ℕ → M (Unit {0})
    merged_gate minutes run none = patcher_gate none
    merged_gate minutes run (some merged_at) = do
      until ← lift (plus_minutes merged_at minutes)
      judge_merged minutes run merged_at until

    abbrev pub previous_gate : ℤ → Option Run → M (Unit {0})
    previous_gate minutes none = patcher_gate none
    previous_gate minutes (some run) = merged_gate minutes run run.pr_merged_at

    unfoldable pub grace_gate : M (Unit {0})
    unfolding patcher_gate get_setting find_previous_merged_attempt plus_minutes compute_dedup_key
    grace_gate = do
      raw ← query (get_setting (lit "post_merge_grace_minutes"))
      previous ← query (find_previous_merged_attempt (compute_dedup_key alert) (some run_id))
      minutes ← lift (int_setting raw (pos 30))
      previous_gate minutes previous

    abbrev pub recent_gate : ℤ → Option Run → M (Unit {0})
    recent_gate minutes none = grace_gate
    recent_gate minutes (some run) = skip run_id (backed_off run.id run.processing_status minutes)

    unfoldable pub backoff_gate : Option Text → M (Unit {0})
    unfolding grace_gate find_recent_unproductive_run minus_minutes compute_dedup_key
    backoff_gate raw = do
      minutes ← lift (int_setting raw env.config.patch_backoff_minutes)
      if options.enforce_backoff && ltb_int (pos 0) minutes
          then (do
            since ← lift (minus_minutes env.now_backoff minutes)
            recent ←
                query (find_recent_unproductive_run (compute_dedup_key alert) since (some run_id))
            recent_gate minutes recent)
          else grace_gate

    abbrev pub blocker_gate : Option Run → Option Text → M (Unit {0})
    blocker_gate none raw = backoff_gate raw
    blocker_gate (some run) raw = skip run_id (duplicate_pending_pr run.id (url_of run))

    unfoldable pub dedup_gate : M (Unit {0})
    unfolding backoff_gate find_blocking_open_pr_run get_setting compute_dedup_key
    dedup_gate = do
      blocker ← query (find_blocking_open_pr_run (compute_dedup_key alert) (some run_id))
      raw ← query (get_setting (lit "patch_backoff_minutes"))
      blocker_gate blocker raw

    abbrev pub tripped_gate : Option Message → M (Unit {0})
    tripped_gate none = dedup_gate
    tripped_gate (some reason) = do
      write (set_processing_mode manual)
      write (update_status run_id queued (some reason))

    unfoldable pub breaker_gate : M (Unit {0})
    unfolding dedup_gate check_cost_breaker set_processing_mode update_status
    breaker_gate =
        if options.enforce_cost_breaker
        then (do reason ← check_cost_breaker env; tripped_gate reason)
        else dedup_gate

    abbrev pub skip_gate : Option Message → M (Unit {0})
    skip_gate none = breaker_gate
    skip_gate (some reason) = skip run_id reason

    unfoldable pub prefilter : M (Unit {0})
    unfolding breaker_gate should_skip
    prefilter = skip_gate (should_skip alert env.services settings.extra_ignore)

  -- The body of the outer `try`.
  unfoldable pub pipeline : M (Unit {0})
  unfolding read_settings prefilter
  pipeline = do settings ← read_settings; prefilter settings
