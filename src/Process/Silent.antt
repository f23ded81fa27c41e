-- ===== src/Process/Silent.antt =====
-- agent/processor.py: a run that the filter turns away.
use llopster.Base.{◌≡◌, ap, ◌∙◌, Option, none, some, Text}
use llopster.Alerts.{ParsedAlert}
use llopster.Filter.{should_skip}
use llopster.Messages.{Message, skipped}
use llopster.Store.{update_status}
use llopster.Process.World.{Env, World, Result, ok, raise, continue, db_op, ◌>>=◌}
use llopster.Process.Post.{Settings}
use llopster.Process.Gates.{Options, read_settings, skip_gate, prefilter, pipeline}
use llopster.Process.Alert.{process_alert}
use llopster.Process.Pipeline.{read_settings-Quiet}
use llopster.Process.Results.{run_db-effects, record_failure-effects}

module _ (env : Env) (run_id : Text) (alert : ParsedAlert) (options : Options) where
  skip_gate-effects :
      (settings : Settings) (o : Option Message) (u : World) {reason : Message}
      → o ≡ some reason
      → (skip_gate env run_id alert options settings o u).1.effects ≡ u.effects
  unfolding db_op
  skip_gate-effects settings (some r) u h =
      run_db-effects env run_id alert options (λ db. (tt, update_status run_id skipped (some r) db))
        u.faults u
  skip_gate-effects settings none u h = absurd (cc)

  ok_inj : {a b : Settings} → ok a ≡ ok b → a ≡ b
  ok_inj h = cc

  continue-effects :
      (r : Result Settings) (u : World) {settings : Settings} {reason : Message}
      → r ≡ ok settings
      → should_skip alert env.services settings.extra_ignore ≡ some reason
      → (continue r (prefilter env run_id alert options) u).1.effects ≡ u.effects
  unfolding prefilter
  continue-effects (ok s) u e h =
      skip_gate-effects s _ u
        (ap (λ t. should_skip alert env.services t.extra_ignore) (ok_inj e) ∙ h)
  continue-effects (raise x) u e h = absurd (cc)

  -- A run whose alert the filter turns away, under the settings that were read, asks nothing of the
  -- models, the collector, GitHub and the notifier.
  pub process_alert_silent :
      (w : World) (settings : Settings) (reason : Message)
      → (read_settings env run_id alert options w).0 ≡ ok settings
      → should_skip alert env.services settings.extra_ignore ≡ some reason
      → (process_alert env run_id alert options w).effects ≡ w.effects
  unfolding process_alert pipeline ◌>>=◌
  process_alert_silent w settings reason e h =
      record_failure-effects env run_id alert options (pipeline env run_id alert options w).0
        (pipeline env run_id alert options w).1
      ∙ continue-effects (read_settings env run_id alert options w).0
          (read_settings env run_id alert options w).1 e h
      ∙ ((read_settings-Quiet env run_id alert options).at w).1
