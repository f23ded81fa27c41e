-- ===== src/Process/Sound/Stages.antt =====
-- agent/processor.py: the stages from the triage gate to the synthesis call, under the rules of
-- `Reaches`.
use llopster.Base.{
  ℕ, ◌≡◌, refl, Option, none, some, List, [], ◌∷◌, Bool, true, not, ◌&&◌, lower, lit, text_eq, Text,
  arith,
}
use llopster.Base.Int.{pos, ltb_int}
use llopster.Alerts.{ParsedAlert}
use llopster.Services.{ServiceConfig, get_service}
use llopster.Store.{
  Investigation, TriageDecision, record_llm_response, record_investigation,
  record_collected_context, record_triage, update_status,
}
use llopster.Store.Stages.{
  status_write, status_because_write, triage_write, context_write, investigation_write, llm_write,
}
use llopster.Store.Dedup.{PreviousAttempt}
use llopster.Process.World.{ok, Answer, returned, raised, HeldObject, Collected, as_result}
use llopster.Process.Analyse.{
  Patcher, Investigator, need_service, generate_phase, after_investigation, call_investigator,
  investigate_with, investigation_phase, held_gate, collect_phase, after_triage, triage_with,
  triage_phase,
}
use llopster.Process.Reach.{Call, Founded, Unheld, triages, collects, investigates, synthesises}
use llopster.Process.Sound.{Ends, bind, lift_bind, lift-Ok, emit-Ok, modify-Ok, if_Ends, settle}
use llopster.Process.Sound.Post.{open_phase-Ends}

as_result_ok :
    {A : Type 0} (answer : Answer A) {a : A} → as_result answer ≡ ok a → answer ≡ returned a
as_result_ok (returned a) h = ground (arith, h)
as_result_ok (raised e) h = absurd (ground (arith, h))

need_service_ok :
    (service : Option ServiceConfig) {config : ServiceConfig}
    → need_service service ≡ ok config
    → service ≡ some config
need_service_ok (some config) h = ground (arith, h)
need_service_ok none h = absurd (ground (arith, h))

module _ (c : Call) where
  open c use {env, alert, settings, run_id}

  module _ (service : Option ServiceConfig)
      (registered : get_service alert.service env.services ≡ service)
      (previous : Option PreviousAttempt) (patcher : Patcher)
      (configured : env.patcher ≡ some patcher) where
    module _ (ctx : Collected) (unheld : Unheld env alert settings ctx) where
      generate_phase-Ends :
          (investigation : Option Investigation)
          → Founded env settings ctx investigation
          → Ends c
              (generate_phase env run_id alert settings service previous patcher ctx investigation)
      unfolding generate_phase record_llm_response
      generate_phase-Ends investigation founded =
          bind c _ _ (modify-Ok c _ (λ run. refl) (status_write _)) λ _.
            bind c _ _ (lift-Ok c _) λ config. bind c _ _ (emit-Ok c _ (synthesises unheld)) λ _.
              lift_bind c _ _ λ answer e.
                bind c _ _ (modify-Ok c _ (λ run. refl) (llm_write _)) λ _.
                  bind c _ _ (modify-Ok c _ (λ run. refl) (status_write _)) λ _.
                    open_phase-Ends c answer.0 investigation
                      (record {
                        patcher = patcher;
                        ctx = ctx;
                        codebase_path = config.codebase_path;
                        previous = previous;
                        latency_ms = answer.1;
                        configured = configured;
                        unheld = unheld;
                        founded = founded;
                        answer = as_result_ok _ e;
                      })
                      service registered

      module _ (enabled : settings.investigation_enabled ≡ true) (investigate : Investigator)
          (known : env.investigator ≡ some investigate) (reasoning : Option Text) where
        after_investigation-Ends :
            (path : Text) (answer : Answer (Investigation × ℕ))
            → investigate ctx path reasoning ≡ answer
            → Ends c
                (after_investigation env run_id alert settings service previous patcher ctx answer)
        unfolding record_investigation
        after_investigation-Ends path (raised e) h = generate_phase-Ends none tt
        after_investigation-Ends path (returned (investigation, latency_ms)) h =
            bind c _ _ (modify-Ok c _ (λ run. refl) (investigation_write _ _)) λ _.
              generate_phase-Ends (some investigation) (
                enabled,
                record {
                  investigator = investigate;
                  codebase_path = path;
                  reasoning = reasoning;
                  latency_ms = latency_ms;
                  configured = known;
                  answer = h;
                },
              )

        call_investigator-Ends :
            (config : Option ServiceConfig)
            → Ends c (
                call_investigator env run_id alert settings service previous patcher investigate ctx
                  reasoning config)
        call_investigator-Ends none = generate_phase-Ends none tt
        call_investigator-Ends (some config) =
            bind c _ _ (emit-Ok c _ (investigates unheld))
              λ _. after_investigation-Ends config.codebase_path _ refl

      investigate_with-Ends :
          (reasoning : Option Text) (investigator : Option Investigator)
          → env.investigator ≡ investigator
          → Ends c (
              investigate_with env run_id alert settings service previous patcher ctx reasoning
                investigator)
      unfolding update_status
      investigate_with-Ends reasoning none known = generate_phase-Ends none tt
      investigate_with-Ends reasoning (some investigate) known =
          if_Ends c settings.investigation_enabled _ _
            (λ enabled.
              bind c _ _ (modify-Ok c _ (λ run. refl) (status_write _))
                λ _. call_investigator-Ends enabled investigate known reasoning service)
            λ _. generate_phase-Ends none tt

    held_gate-Ends :
        (ctx : Collected) (reasoning : Option Text) (held : List HeldObject)
        → env.collect alert settings.lookback_minutes ≡ returned ctx
        → ctx.held ≡ held
        → Ends c (held_gate env run_id alert settings service previous patcher ctx reasoning held)
    unfolding investigation_phase update_status
    held_gate-Ends ctx reasoning [] collected free =
        investigate_with-Ends ctx (record { collected = collected; free = free }) reasoning
          env.investigator refl
    held_gate-Ends ctx reasoning (obj ∷ more) collected held =
        settle c _ (λ run. refl) (status_because_write _ _) (λ run. refl)

    collect_phase-Ends :
        (reasoning : Option Text)
        → Ends c (collect_phase env run_id alert settings service previous patcher reasoning)
    unfolding collect_phase record_collected_context
    collect_phase-Ends reasoning = bind c _ _ (modify-Ok c _ (λ run. refl) (status_write _)) λ _.
        bind c _ _ (emit-Ok c _ collects) λ _. lift_bind c _ _ λ ctx e.
          bind c _ _ (modify-Ok c _ (λ run. refl) (context_write _))
            λ _. held_gate-Ends ctx reasoning ctx.held (as_result_ok _ e) refl

    after_triage-Ends :
        (answer : Answer TriageDecision)
        → Ends c (after_triage env run_id alert settings service previous patcher answer)
    unfolding record_triage update_status
    after_triage-Ends (raised e) = collect_phase-Ends none
    after_triage-Ends (returned decision) =
        bind c _ _ (modify-Ok c _ (λ run. refl) (triage_write _)) λ _.
          if_Ends c
            (not decision.proceed
              && not (ltb_int (pos decision.confidence) settings.triage_min_confidence))
            _ _ (λ _. settle c _ (λ run. refl) (status_because_write _ _) (λ run. refl))
            λ _. collect_phase-Ends (some decision.reasoning)

    triage_with-Ends :
        (triage : Option (ParsedAlert → Bool → Option Text → Answer TriageDecision))
        → Ends c (triage_with env run_id alert settings service previous patcher triage)
    unfolding update_status
    triage_with-Ends none = collect_phase-Ends none
    triage_with-Ends (some evaluate) =
        if_Ends c (settings.triage_enabled && not (text_eq (lower alert.severity) (lit "critical")))
          _ _
          (λ _.
            bind c _ _ (modify-Ok c _ (λ run. refl) (status_write _))
              λ _. bind c _ _ (emit-Ok c _ triages) λ _. after_triage-Ends _)
          λ _. collect_phase-Ends none

    pub triage_phase-Ends : Ends c (triage_phase env run_id alert settings service previous patcher)
    unfolding triage_phase
    triage_phase-Ends = triage_with-Ends env.triage
