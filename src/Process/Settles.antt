-- ===== src/Process/Settles.antt =====
-- agent/processor.py: how a run of `process_alert` ends.
use llopster.Base.{
  ◌≡◌, refl, ap, sym, ◌∙◌, Option, none, some, List, [], ◌∷◌, Bool, true, map, is_some, any, Text,
  text_eq, arith,
}
use llopster.Alerts.{ParsedAlert}
use llopster.Messages.{Exn, failed, exception}
use llopster.Store.{Run, get_run, find_row, update_status, modify}
use llopster.Process.World.{Env, World, Result, ok, raise, db_op, run_db}
use llopster.Process.Post.{Settings}
use llopster.Process.Gates.{Options}
use llopster.Process.Alert.{record_failure, process_alert}
use llopster.Process.Reach.{
  Reaches, stay, via, used, changed, tripped, called, Settled, is_settled, fixed_columns,
}
use llopster.Process.Pipeline.{Pipeline, refused, went_on, pipeline-Pipeline}
use llopster.Process.Sound.{modify-Settled}
use llopster.Process.Results.{process_alert_frame}

-- A row is there if one of the keys is it.
is_some-find_row :
    (id : Text) (runs : List Run)
    → is_some (find_row id runs) ≡ any (λ c. text_eq c.0 id) (map fixed_columns runs)
unfolding find_row
is_some-find_row id [] = refl
is_some-find_row id (run ∷ runs) = ground (arith, is_some-find_row id runs)

some_of_is_some : (o : Option Run) → is_some o ≡ true → (run : Run) × (o ≡ some run)
some_of_is_some none h = absurd (cc)
some_of_is_some (some run) h = (run, refl)

module _ (env : Env) (run_id : Text) (alert : ParsedAlert) (options : Options) where
  calm_of_Reaches :
      {settings : Settings} {u w : World}
      → Reaches env alert settings run_id u w
      → u.faults ≡ []
      → w.faults ≡ []
  calm_of_Reaches (stay w) e = e
  calm_of_Reaches (via u v w a b) e = calm_of_Reaches b (calm_of_Reaches a e)
  calm_of_Reaches (used w b faults h) e = absurd (cc)
  calm_of_Reaches (changed w f k v) e = e
  calm_of_Reaches (tripped w) e = e
  calm_of_Reaches (called w x p) e = e

  failure-Settled :
      (e : Exn) (faults : List Bool) (w : World)
      → faults ≡ []
      → Settled run_id
          (run_db faults
            (λ db. (
              tt,
              modify run_id
                  (λ run. record run {
                    processing_status = failed;
                    error_message = some (exception e);
                  })
                  db,
            ))
            w).1.db
  failure-Settled e [] w h = modify-Settled run_id _ (λ run. refl) (λ run. refl) w.db
  failure-Settled e (b ∷ faults) w h = absurd (cc)

  record_failure-Settled :
      {u w : World} (r : Result (Unit {0}))
      → Pipeline env run_id alert options u r w
      → u.faults ≡ []
      → Settled run_id (record_failure run_id r w).db
  unfolding db_op update_status
  record_failure-Settled (ok _) (went_on settings e q r s) h = s refl
  record_failure-Settled {u} {w} (raise x) (refused _ q) h = failure-Settled x w.faults w (q.2 h)
  record_failure-Settled {u} {w} (raise x) (went_on settings e q r s) h =
      failure-Settled x w.faults w (calm_of_Reaches r (q.2 h))

  process_alert-Settled :
      (w : World) → w.faults ≡ [] → Settled run_id (process_alert env run_id alert options w).db
  unfolding process_alert
  process_alert-Settled w calm =
      record_failure-Settled _ (pipeline-Pipeline env run_id alert options w) calm

  process_alert_there :
      (w : World)
      → is_some (get_run run_id (process_alert env run_id alert options w).db)
        ≡ is_some (get_run run_id w.db)
  unfolding get_run
  process_alert_there w =
      is_some-find_row run_id _
      ∙ ap (any (λ c. text_eq c.0 run_id)) (process_alert_frame env run_id alert options w).columns
      ∙ sym (is_some-find_row run_id _)

  -- Where the database does not fail, a run of `process_alert` on a row that is there ends, whatever
  -- the collaborators answer or raise, with that row in one of the statuses done, failed, skipped
  -- and queued.
  pub process_alert_settles :
      (w : World) (run : Run)
      → w.faults ≡ []
      → get_run run_id w.db ≡ some run
      → (run' : Run) × (get_run run_id (process_alert env run_id alert options w).db ≡ some run')
        × (is_settled run'.processing_status ≡ true)
  process_alert_settles w run calm e =
      let (run', e') = some_of_is_some _ (process_alert_there w ∙ ap is_some e) in
      (run', e', process_alert-Settled w calm run' e')
