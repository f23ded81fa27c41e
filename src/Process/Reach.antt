-- ===== src/Process/Reach.antt =====
-- agent/processor.py: the uses of the world that a run may make, as a relation between the world
-- before and after. A row is changed in the columns of its own stage only.
use llopster.Base.{ℕ, ◌≡◌, Option, none, some, List, [], ◌∷◌, ◌++◌, Bool, true, false, Text}
use llopster.Base.Int.{pos, ltb_int}
use llopster.Alerts.{ParsedAlert}
use llopster.Alerts.Payload.{RawAlert}
use llopster.Github.Client.{Request, Server, open_pr}
use llopster.Github.Diff.{proposal_has_patch}
use llopster.Messages.{Status, done, failed, skipped, queued}
use llopster.Store.Stages.{StageWrite}
use llopster.Store.{get_run, Db, Run, PatchProposal, Investigation, OperatorLabel, modify}
use llopster.Process.World.{
  Env, World, Collected, returned, Effect, github_called, triage_called, context_collected,
  investigation_called, synthesis_called, notified,
}
use llopster.Github.Paths.{discover_chart_roots}
use llopster.Services.{ServiceConfig, get_service}
use llopster.Store.Dedup.{PreviousAttempt}
use llopster.Process.Post.{Settings, allowed_paths}
use llopster.Process.Analyse.{Patcher, Investigator}
use llopster.Process.Breaker.{set_processing_mode, manual}

-- The columns that no stage of the pipeline writes.
abbrev pub fixed_columns :
    Run
    → Text
      × Text
      × Text
      × ℕ
      × Text
      × List RawAlert
      × Option Text
      × Option ℕ
      × Option OperatorLabel
      × Text
      × Text
      × Text
      × Text
fixed_columns run = (
  run.id, run.fingerprint, run.dedup_key, run.created_at, run.trigger_source, run.alert_payload,
  run.pr_status, run.pr_merged_at, run.operator_label, run.alertname, run.service, run.severity,
  run.status,
)

abbrev pub KeepsFixed : (Run → Run) → Type 0
KeepsFixed f = (run : Run) → fixed_columns (f run) ≡ fixed_columns run

-- The statuses in which no stage of the pipeline is at work.
abbrev pub is_settled : Status → Bool
is_settled done = true
is_settled failed = true
is_settled skipped = true
is_settled queued = true
is_settled _ = false

-- The row, if it is there, is in such a status.
abbrev pub Settled : Text → Db → Type 0
Settled run_id db =
    (run : Run) → get_run run_id db ≡ some run → is_settled run.processing_status ≡ true

-- An answer of the investigator on the context.
pub record Investigated (env : Env) (ctx : Collected) (investigation : Investigation) : Type 0 where
  pub investigator : Investigator
  pub codebase_path : Text
  pub reasoning : Option Text
  pub latency_ms : ℕ
  pub configured : env.investigator ≡ some investigator
  pub answer : investigator ctx codebase_path reasoning ≡ returned (investigation, latency_ms)

-- The investigation, if there is one, is such an answer, and the settings ask for it.
abbrev pub Founded : Env → Settings → Collected → Option Investigation → Type 0
Founded env settings ctx none = Unit
Founded env settings ctx (some investigation) =
    (settings.investigation_enabled ≡ true) × Investigated env ctx investigation

-- The context is the one that was collected, and no Flux object that delivers is suspended.
pub record Unheld (env : Env) (alert : ParsedAlert) (settings : Settings) (ctx : Collected)
    : Type 0 where
  pub collected : env.collect alert settings.lookback_minutes ≡ returned ctx
  pub free : ctx.held ≡ []

-- The proposal is an answer of the patch generator on the collected context and the investigation.
pub record Answered (env : Env) (alert : ParsedAlert) (settings : Settings)
    (proposal : PatchProposal) (investigation : Option Investigation) : Type 0 where
  pub patcher : Patcher
  pub ctx : Collected
  pub codebase_path : Text
  pub previous : Option PreviousAttempt
  pub latency_ms : ℕ
  pub configured : env.patcher ≡ some patcher
  pub unheld : Unheld env alert settings ctx
  pub founded : Founded env settings ctx investigation
  pub answer : patcher ctx codebase_path previous investigation ≡ returned (proposal, latency_ms)

module _ (env : Env) (alert : ParsedAlert) (settings : Settings) where
  -- The requests are those of one call of `open_pr` for the alert's service and a proposal of the
  -- patch generator with a patch, whose confidence is not below the threshold.
  pub record OpensPr (requests : List Request) : Type 0 where
    pub server : Server
    pub github : env.github ≡ some server
    pub service : ServiceConfig
    pub registered : get_service alert.service env.services ≡ some service
    pub proposal : PatchProposal
    pub investigation : Option Investigation
    pub answered : Answered env alert settings proposal investigation
    pub patch : proposal_has_patch proposal.text ≡ true
    pub confident : ltb_int (pos proposal.confidence) settings.confidence_threshold ≡ false
    pub same :
        requests
        ≡ (open_pr server env.parsers service.github_repo env.branch_timestamp alert proposal.text
            settings.open_prs_as_draft
            (allowed_paths service investigation)
            (some (
              discover_chart_roots
                (env.chart_manifests service.codebase_path).0
                (env.chart_manifests service.codebase_path).1))
            []).1

  -- Behind the collection of context the calls are bound to a condition.
  pub data Permitted : Effect → Type 0 where
    triages : Permitted triage_called
    collects : Permitted context_collected
    investigates :
        {ctx : Collected} → Unheld env alert settings ctx → Permitted investigation_called
    synthesises :
        {p : _} {ctx : Collected} → Unheld env alert settings ctx → Permitted (synthesis_called p)
    notifies : {url : _} → Permitted (notified url)
    opens : {requests : List Request} → OpensPr requests → Permitted (github_called requests)

  module _ (run_id : Text) where
    -- Each use of the database may take one entry off the list of faults.
    pub data Reaches : World → World → Type 0 where
      stay : (w : World) → Reaches w w
      via : (u v w : World) → Reaches u v → Reaches v w → Reaches u w
      used :
          (w : World) (fails : Bool) (faults : List Bool)
          → w.faults ≡ fails ∷ faults
          → Reaches w (record w { faults = faults })
      changed :
          (w : World) (f : Run → Run)
          → KeepsFixed f
          → StageWrite run_id (modify run_id f)
          → Reaches w (record w { db = modify run_id f w.db })
      tripped : (w : World) → Reaches w (record w { db = set_processing_mode manual w.db })
      called :
          (w : World) (e : Effect)
          → Permitted e
          → Reaches w (record w { effects = w.effects ++ (e ∷ []) })

-- One call of `process_alert` behind the settings.
pub record Call : Type 0 where
  pub env : Env
  pub alert : ParsedAlert
  pub settings : Settings
  pub run_id : Text
