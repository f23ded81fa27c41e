-- ===== src/Process/Alert.antt =====
-- agent/processor.py: `process_alert`.
use llopster.Base.{some, Text}
use llopster.Alerts.{ParsedAlert}
use llopster.Messages.{failed, exception}
use llopster.Store.{update_status}
use llopster.Process.World.{Env, World, Result, ok, raise, write, ◌>>=◌}
use llopster.Process.Gates.{Options, pipeline}

-- The outer `except`: the failure is recorded, and where that fails too nothing more is done.
abbrev pub record_failure : Text → Result (Unit {0}) → World → World
record_failure run_id (ok _) w = w
record_failure run_id (raise e) w = (write (update_status run_id failed (some (exception e))) w).1

unfoldable pub process_alert : Env → Text → ParsedAlert → Options → World → World
unfolding pipeline update_status ◌>>=◌
process_alert env run_id alert options w =
    let (outcome, w') = pipeline env run_id alert options w in record_failure run_id outcome w'
