-- ===== src/Api/Steps.antt =====
-- api/trigger_routes.py: the handlers are made of the steps of the system.
use llopster.Base.{ℕ, ◌≡◌, Option, List, false, map, Text, member}
use llopster.Messages.{pending}
use llopster.Store.{Run, update_status}
use llopster.Store.Valid.{run_id_of}
use llopster.Process.World.{World, Result}
use llopster.Store.Stages.{status_write}
use llopster.System.{Steps, one, created, staged, at}
use llopster.Api.Batch.{same_db}
use llopster.Api.Trigger.{Form, Fresh, Response, trigger_dispatch, trigger_submit}
use llopster.Api.Dispatch
use llopster.Api.Dispatch.{Dispatched, trigger_dispatch-Dispatched}
use llopster.Api.Submit
use llopster.Api.Submit.{Submitted, trigger_submit-Submitted}

Steps-of_Dispatched :
    {fromisoformat : Text → Option ℕ} {run_id : Text} {w w' : World} {r : Result Response}
    (listed : List Run)
    → Dispatched fromisoformat run_id w w' r
    → Steps (at w listed) (at w' listed)
unfolding update_status
Steps-of_Dispatched {w} {w'} listed (Dispatch.refused h d x) = same_db w w' listed d
Steps-of_Dispatched {run_id} {w} {w'} listed (Dispatch.started run alerts alert g q p k d x) =
    rw d (one (staged (at w listed) run_id _ (status_write pending)))

-- A call of `trigger_dispatch` is a sequence of steps of the system.
pub trigger_dispatch-Steps :
    (fromisoformat : Text → Option ℕ) (run_id : Text) (w : World) (listed : List Run)
    → Steps (at w listed) (at (trigger_dispatch fromisoformat run_id w).1 listed)
trigger_dispatch-Steps fromisoformat run_id w listed =
    Steps-of_Dispatched listed (trigger_dispatch-Dispatched fromisoformat run_id w)

Steps-of_Submitted :
    {fresh : Fresh} {form : Form} {w w' : World} {r : Result Response} (listed : List Run)
    → member fresh.run_id (map run_id_of w.db.runs) ≡ false
    → Submitted fresh form w w' r
    → Steps (at w listed) (at w' listed)
Steps-of_Submitted {w} {w'} listed f (Submit.refused h d x) = same_db w w' listed d
Steps-of_Submitted {w} listed f (Submit.submitted alert payload lookback a l h d x) =
    rw d (one (created (at w listed) _ _ alert payload _ f))

-- A call of `trigger_submit` whose primary key is new is a sequence of steps of the system.
pub trigger_submit-Steps :
    (fresh : Fresh) (form : Form) (w : World) (listed : List Run)
    → member fresh.run_id (map run_id_of w.db.runs) ≡ false
    → Steps (at w listed) (at (trigger_submit fresh form w).1 listed)
trigger_submit-Steps fresh form w listed f =
    Steps-of_Submitted listed f (trigger_submit-Submitted fresh form w)
