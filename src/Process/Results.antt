-- ===== src/Process/Results.antt =====
-- agent/processor.py: what a run of `process_alert` may change and ask for.
use mathlib.Core.Path.{subst}
use llopster.Base.{
  no_Has, ◌≡◌, refl, sym, ap, ◌∙◌, some, List, [], ◌∷◌, Bool, true, false, map, any, Text, Has, ◌⊎◌,
  inl, inr,
}
use llopster.Alerts.{ParsedAlert}
use llopster.Github.Client.{Request, is_write, PatchedFile}
use llopster.Github.Client.Gated.{Gated}
use llopster.Github.Client.Gates.{open_pr-write}
use llopster.Github.Diff.{parse_file_patches, extract_diff}
use llopster.Github.Paths.{discover_chart_roots}
use llopster.Messages.{failed, exception}
use llopster.Store.{Db, get_run, update_status}
use llopster.Process.World.{Env, World, Result, ok, raise, Effect, github_called, run_db, db_op}
use llopster.Process.Post.{Settings, allowed_paths}
use llopster.Process.Gates.{Options, read_settings, pipeline}
use llopster.Process.Alert.{record_failure, process_alert}
use llopster.Process.Reach.{OpensPr, Permitted, opens, fixed_columns}
use llopster.Process.Frame.{Framed, run_db-Framed, Framed-of_Reaches, Calls_of_Reaches}
use llopster.Process.Pipeline.{Quiet, Pipeline, refused, went_on, pipeline-Pipeline}

module _ (env : Env) (run_id : Text) (alert : ParsedAlert) (options : Options) where
  record_failure-Framed :
      (outcome : Result (Unit {0})) (w : World) → Framed run_id w (record_failure run_id outcome w)
  unfolding update_status db_op
  record_failure-Framed (ok _) w = record { others = λ j e. refl; columns = refl }
  record_failure-Framed (raise e) w =
      run_db-Framed run_id
        (λ run. record run { processing_status = failed; error_message = some (exception e) })
        (λ run. refl) w.faults w

  pub run_db-effects :
      (f : Db → Unit {0} × Db) (faults : List Bool) (w : World)
      → (run_db faults f w).1.effects ≡ w.effects
  run_db-effects f [] w = refl
  run_db-effects f (true ∷ faults) w = refl
  run_db-effects f (false ∷ faults) w = refl

  pub record_failure-effects :
      (outcome : Result (Unit {0})) (w : World)
      → (record_failure run_id outcome w).effects ≡ w.effects
  unfolding db_op
  record_failure-effects (ok _) w = refl
  record_failure-effects (raise e) w =
      run_db-effects (λ db. (tt, update_status run_id failed (some (exception e)) db)) w.faults w

  Framed-of_Quiet : {u w : World} → Quiet u w → Framed run_id u w
  Framed-of_Quiet (d, e, _) = record {
    others = λ j _. ap (get_run j) d;
    columns = ap (λ db. map fixed_columns db.runs) d;
  }

  Framed-trans : {u v w : World} → Framed run_id u v → Framed run_id v w → Framed run_id u w
  Framed-trans a b = record {
    others = λ j e. b.others j e ∙ a.others j e;
    columns = b.columns ∙ a.columns;
  }

  Framed-of_Pipeline :
      {u w : World} {r : Result (Unit {0})}
      → Pipeline env run_id alert options u r w
      → Framed run_id u w
  Framed-of_Pipeline (refused x q) = Framed-of_Quiet q
  Framed-of_Pipeline (went_on settings e q r s) =
      Framed-trans (Framed-of_Quiet q) (Framed-of_Reaches env alert run_id settings r)

  -- Whatever the collaborators answer and wherever the database fails, a run of `process_alert`
  -- leaves every row of another run as it is, removes and adds no row, and leaves in every row the
  -- key, the time of creation, the columns and the payload of the alert, the state of the pull request
  -- on GitHub and the operator's label.
  pub process_alert_frame : (w : World) → Framed run_id w (process_alert env run_id alert options w)
  unfolding process_alert
  process_alert_frame w =
      Framed-trans (Framed-of_Pipeline (pipeline-Pipeline env run_id alert options w)) (
        record_failure-Framed (pipeline env run_id alert options w).0
          (pipeline env run_id alert options w).1)

  -- What must have been the case for requests to the server that change something.
  pub record Justified (w : World) (requests : List Request) : Type 0 where
    pub settings : Settings
    pub read : (read_settings env run_id alert options w).0 ≡ ok settings
    pub call : OpensPr env alert settings requests
    pub branch : Text
    pub files : List PatchedFile
    pub gated :
        Gated call.server env.parsers call.service.github_repo
          (allowed_paths call.service call.investigation)
          (some (
            discover_chart_roots
              (env.chart_manifests call.service.codebase_path).0
              (env.chart_manifests call.service.codebase_path).1))
          (parse_file_patches (extract_diff call.proposal.text))
          branch
          files

  Calls_of_Pipeline :
      {u w : World} {r : Result (Unit {0})} (e : Effect)
      → Pipeline env run_id alert options u r w
      → Has e w.effects
      → Has e u.effects
        ⊎ ((settings : Settings) × ((read_settings env run_id alert options u).0 ≡ ok settings)
            × Permitted env alert settings e)
  Calls_of_Pipeline e (refused x q) h = inl (subst (Has e) q.1 h)
  Calls_of_Pipeline e (went_on settings read q r s) h =
      elim (Calls_of_Reaches env alert run_id settings e r h) [
        | inl h' ↦ inl (subst (Has e) q.1 h')
        | inr p ↦ inr (settings, read, p)
      ]

  -- Every call of a run of `process_alert` meets its condition under the settings that were read.
  pub process_alert-Permitted :
      (w : World) (e : Effect)
      → w.effects ≡ []
      → Has e (process_alert env run_id alert options w).effects
      → (settings : Settings) × ((read_settings env run_id alert options w).0 ≡ ok settings)
        × Permitted env alert settings e
  unfolding process_alert
  process_alert-Permitted w e fresh h =
      elim (Calls_of_Pipeline e (pipeline-Pipeline env run_id alert options w)
        (subst (Has e) (record_failure-effects _ (pipeline env run_id alert options w).1) h)) [
          | inl old ↦ absurd (no_Has (subst (Has e) fresh old))
          | inr p ↦ p
        ]

  opens_of_Permitted :
      {settings : Settings} {requests : List Request}
      → Permitted env alert settings (github_called requests)
      → OpensPr env alert settings requests
  opens_of_Permitted (opens h) = h

  Justified-of_OpensPr :
      (w : World) (requests : List Request) (settings : Settings)
      → (read_settings env run_id alert options w).0 ≡ ok settings
      → OpensPr env alert settings requests
      → any is_write requests ≡ true
      → Justified w requests
  Justified-of_OpensPr w requests settings e o h =
      let (branch, files, g) =
        open_pr-write o.server env.parsers o.service.github_repo env.branch_timestamp alert
          o.proposal.text settings.open_prs_as_draft (allowed_paths o.service o.investigation)
          (some (
            discover_chart_roots (env.chart_manifests o.service.codebase_path).0
              (env.chart_manifests o.service.codebase_path).1))
          (sym (ap (any is_write) o.same) ∙ h) in
      record { settings = settings; read = e; call = o; branch = branch; files = files; gated = g }

  -- If a run of `process_alert` sends GitHub a request that changes something, then the alert's
  -- service is registered, the context was collected and nothing in it is held, the proposal is an
  -- answer of the patch generator on that context and, if there is an investigation, on one that the
  -- settings ask for and that is an answer of the investigator on that context; the proposal has a
  -- patch and a confidence not below the threshold in force, and every check of `open_pr` has passed
  -- with the allowlist of the investigation.
  pub process_alert-write :
      (w : World) (requests : List Request)
      → w.effects ≡ []
      → Has (github_called requests) (process_alert env run_id alert options w).effects
      → any is_write requests ≡ true
      → Justified w requests
  process_alert-write w requests fresh h hw =
      let (settings, e, p) = process_alert-Permitted w (github_called requests) fresh h in
      Justified-of_OpensPr w requests settings e (opens_of_Permitted p) hw
