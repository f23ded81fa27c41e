-- ===== src/System.antt =====
-- The writes that the tasks of the program make to the shared database, as a step relation: the
-- background runs of agent/processor.py, the handlers of api/main.py and api/trigger_routes.py, the
-- settings and labels of the dashboard, agent/run_pruner.py and agent/pr_poller.py. Each use of the
-- database is a step of its own, so the tasks may interleave in any way between two of them.
pub mod Invariant
pub mod Null
pub mod Tasks
pub mod Rounds
use llopster.Base.{ℕ, ◌≡◌, Option, List, [], ◌∷◌, map, Text, member, false}
use llopster.Alerts.{ParsedAlert}
use llopster.Alerts.Payload.{RawAlert}
use llopster.Store.{
  Db, Run, OperatorLabel, create_run_from_alert, modify, set_setting, delete_runs_older_than,
  update_pr_status,
}
use llopster.Store.Dedup.{list_open_prs}
use llopster.Store.Stages.{StageWrite}
use llopster.Store.Valid.{run_id_of}
use llopster.Process.World.{World}

-- The database and the rows that the poller has read and not gone through yet.
pub record State : Type 0 where
  pub db : Db
  pub listed : List Run

pub data Step : State → State → Type 0 where
  created :
      (s : State) (id : Text) (now : ℕ) (alert : ParsedAlert) (payload : List RawAlert)
      (source : Text)
      → member id (map run_id_of s.db.runs) ≡ false
      → Step s (record s { db = create_run_from_alert id now alert payload source s.db })
  -- a write of the pipeline, or of a handler that sets the status
  staged :
      (s : State) (id : Text) (write : Db → Db)
      → StageWrite id write
      → Step s (record s { db = write s.db })
  labelled :
      (s : State) (id : Text) (verdict : Option OperatorLabel)
      → Step s (record s { db = modify id (λ run. record run { operator_label = verdict }) s.db })
  configured :
      (s : State) (key value : Text) → Step s (record s { db = set_setting key value s.db })
  pruned :
      (s : State) (cutoff : ℕ) → Step s (record s { db = (delete_runs_older_than cutoff s.db).0 })
  -- the poller reads its list, passes over a row, or writes what GitHub said of it
  read_open_prs : (s : State) → Step s (record s { listed = list_open_prs s.db })
  passed :
      (s : State) (run : Run) (rest : List Run)
      → s.listed ≡ run ∷ rest
      → Step s (record s { listed = rest })
  polled :
      (s : State) (run : Run) (rest : List Run) (status : Text) (now : ℕ)
      → s.listed ≡ run ∷ rest
      → Step s (record { db = update_pr_status run.id status now s.db; listed = rest })

pub data Steps : State → State → Type 0 where
  none_yet : (s : State) → Steps s s
  one : {s t : State} → Step s t → Steps s t
  then_steps : (s t u : State) → Steps s t → Steps t u → Steps s u

abbrev pub at : World → List Run → State
at w listed = record { db = w.db; listed = listed }
