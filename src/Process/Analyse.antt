-- ===== src/Process/Analyse.antt =====
-- agent/processor.py, `process_alert`: from the triage gate to the synthesis call, in reverse
-- order of the text.
use llopster.Base.{
  ℕ, Option, none, some, List, [], ◌∷◌, ◌++◌, Bool, ◌&&◌, not, if◌then◌else◌, is_some, Text, lit,
  text_eq, lower,
}
use llopster.Base.Int.{ℤ, pos, ltb_int}
use llopster.Alerts.{ParsedAlert}
use llopster.Github.Diff.{extract_diff}
use llopster.Answers.Sections.{parse_root_cause}
use llopster.Messages.{
  triaging, collecting, investigating, generating, posting, skipped, Message, suspended_object,
  triage_skip, attribute_error,
}
use llopster.Services.{ServiceConfig}
use llopster.Store.{
  Investigation, PatchProposal, TriageDecision, LlmColumns, update_status, record_triage,
  record_collected_context, record_investigation, record_llm_response,
}
use llopster.Store.Dedup.{PreviousAttempt}
use llopster.Process.World.{
  Env, M, Result, ok, raise, Answer, returned, raised, triage_called, context_collected,
  investigation_called, synthesis_called, HeldObject, Collected, lift, emit, write, as_result,
  ◌>>=◌, ◌>>◌,
}
use llopster.Process.Post.{Settings, open_phase}

abbrev pub skip : Text → Message → M (Unit {0})
skip run_id reason = write (update_status run_id skipped (some reason))

abbrev pub Patcher : Type 0
Patcher =
    Collected → Text → Option PreviousAttempt → Option Investigation → Answer (PatchProposal × ℕ)

abbrev pub Investigator : Type 0
Investigator = Collected → Text → Option Text → Answer (Investigation × ℕ)

abbrev pub need_service : Option ServiceConfig → Result ServiceConfig
need_service none = raise attribute_error
need_service (some service) = ok service

module _ (env : Env) (run_id : Text) (alert : ParsedAlert) (settings : Settings) where
  module _ (service : Option ServiceConfig) (previous : Option PreviousAttempt)
      (patcher : Patcher) where
    abbrev pub llm_columns : PatchProposal → ℕ → LlmColumns
    llm_columns proposal latency_ms = record {
      proposal = proposal;
      latency_ms = latency_ms;
      parsed_root_cause = parse_root_cause proposal.text;
      parsed_diff = extract_diff proposal.text;
    }

    unfoldable pub generate_phase : Collected → Option Investigation → M (Unit {0})
    unfolding update_status record_llm_response extract_diff
    generate_phase ctx investigation = do
      write (update_status run_id generating none)
      config ← lift (need_service service)
      emit (synthesis_called previous)
      answer ← lift (as_result (patcher ctx config.codebase_path previous investigation))
      write (record_llm_response run_id (llm_columns answer.0 answer.1))
      write (update_status run_id posting none)
      open_phase env run_id alert settings service investigation answer.0

    -- A failed call falls through to the synthesis without an investigation.
    abbrev pub after_investigation : Collected → Answer (Investigation × ℕ) → M (Unit {0})
    after_investigation ctx (raised e) = generate_phase ctx none
    after_investigation ctx (returned (investigation, latency_ms)) = do
      write (record_investigation run_id investigation latency_ms)
      generate_phase ctx (some investigation)

    abbrev pub call_investigator :
        Investigator → Collected → Option Text → Option ServiceConfig → M (Unit {0})
    call_investigator investigate ctx reasoning none = generate_phase ctx none
    call_investigator investigate ctx reasoning (some config) = do
      emit investigation_called
      after_investigation ctx (investigate ctx config.codebase_path reasoning)

    abbrev pub investigate_with : Collected → Option Text → Option Investigator → M (Unit {0})
    investigate_with ctx reasoning none = generate_phase ctx none
    investigate_with ctx reasoning (some investigate) =
        if settings.investigation_enabled
        then (do
          write (update_status run_id investigating none)
          call_investigator investigate ctx reasoning service)
        else generate_phase ctx none

    unfoldable pub investigation_phase : Collected → Option Text → M (Unit {0})
    unfolding generate_phase record_investigation update_status
    investigation_phase ctx reasoning = investigate_with ctx reasoning env.investigator

    abbrev pub held_message : HeldObject → Message
    held_message obj =
        suspended_object
          (lit "Flux " ++ (obj.kind ++ (lit " " ++ (obj.namespace ++ (lit "/" ++ obj.name)))))

    abbrev pub held_gate : Collected → Option Text → List HeldObject → M (Unit {0})
    held_gate ctx reasoning [] = investigation_phase ctx reasoning
    held_gate ctx reasoning (obj ∷ more) = skip run_id (held_message obj)

    abbrev pub lookback : Option ℤ → ℤ
    lookback none = env.config.log_lookback_minutes
    lookback (some minutes) = minutes

    unfoldable pub collect_phase : Option Text → M (Unit {0})
    unfolding investigation_phase record_collected_context update_status
    collect_phase reasoning = do
      write (update_status run_id collecting none)
      emit context_collected
      ctx ← lift (as_result (env.collect alert settings.lookback_minutes))
      write (
          record_collected_context run_id
            (record ctx.columns { lookback_minutes = lookback settings.lookback_minutes }))
      held_gate ctx reasoning ctx.held

    -- A failed call falls through; a decision to skip counts from the minimum confidence on.
    abbrev pub after_triage : Answer TriageDecision → M (Unit {0})
    after_triage (raised e) = collect_phase none
    after_triage (returned decision) = do
      write (record_triage run_id decision)
      if not decision.proceed
            && not (ltb_int (pos decision.confidence) settings.triage_min_confidence)
          then skip run_id (triage_skip decision.confidence decision.reasoning)
          else collect_phase (some decision.reasoning)

    abbrev pub stack : Option ServiceConfig → Option Text
    stack none = none
    stack (some config) = config.pack

    abbrev pub triage_with :
        Option (ParsedAlert → Bool → Option Text → Answer TriageDecision) → M (Unit {0})
    triage_with none = collect_phase none
    triage_with (some evaluate) =
        if settings.triage_enabled && not (text_eq (lower alert.severity) (lit "critical"))
        then (do
          write (update_status run_id triaging none)
          emit triage_called
          after_triage (evaluate alert (is_some service) (stack service)))
        else collect_phase none

    unfoldable pub triage_phase : M (Unit {0})
    unfolding collect_phase record_triage update_status
    triage_phase = triage_with env.triage
