-- ===== src/Api/Dispatch.antt =====
-- api/trigger_routes.py: what `trigger_dispatch` does on each of its branches.
use llopster.Base.{
  ℕ, ◌≡◌, refl, Option, none, some, List, [], ◌∷◌, ◌++◌, Bool, true, false, Text, Option-cases,
  Bool-cases, inl, inr,
}
use llopster.Alerts.{ParsedAlert}
use llopster.Alerts.Payload.{parse_alertmanager_payload, pick_alert}
use llopster.Messages.{pending}
use llopster.Store.{Run, get_run, update_status}
use llopster.Process.World.{World, task_created, Result, ok, pure, lift, emit, ◌>>=◌}
use llopster.Process.Rules.{db_op_bind}
use llopster.Api.Trigger.{
  Response, redirect, trigger_dispatch, dispatch_run, dispatch_queued, dispatch_alert, is_queued,
}

abbrev pub is_redirect : Result Response → Bool
is_redirect (ok (redirect run_id)) = true
is_redirect _ = false

-- What a call does: it does nothing and does not redirect, or it starts a run.
pub data Dispatched (fromisoformat : Text → Option ℕ) (run_id : Text) (w w' : World)
    : Result Response → Type 0 where
  refused :
      {r : Result Response}
      → is_redirect r ≡ false
      → w'.db ≡ w.db
      → w'.effects ≡ w.effects
      → Dispatched fromisoformat run_id w w' r
  started :
      (run : Run) (alerts : List ParsedAlert) (alert : ParsedAlert)
      → get_run run_id w.db ≡ some run
      → is_queued run.processing_status ≡ true
      → parse_alertmanager_payload fromisoformat run.alert_payload ≡ some alerts
      → pick_alert run.fingerprint alerts ≡ some alert
      → w'.db ≡ update_status run_id pending none w.db
      → w'.effects ≡ w.effects ++ (task_created run_id alert none false ∷ [])
      → Dispatched fromisoformat run_id w w' (ok (redirect run_id))

module _ (fromisoformat : Text → Option ℕ) (run_id : Text) (w : World) (fs : List Bool) where
  abbrev there : World
  there = record w { faults = fs }

  alert-Dispatched :
      (run : Run) (alerts : List ParsedAlert)
      → get_run run_id w.db ≡ some run
      → is_queued run.processing_status ≡ true
      → parse_alertmanager_payload fromisoformat run.alert_payload ≡ some alerts
      → (o : Option ParsedAlert) → pick_alert run.fingerprint alerts ≡ o
      → Dispatched fromisoformat run_id w
          (dispatch_alert fromisoformat run_id o there).1
          (dispatch_alert fromisoformat run_id o there).0
  unfolding pure emit ◌>>=◌
  alert-Dispatched run alerts e q p none h = refused refl refl refl
  alert-Dispatched run alerts e q p (some alert) h =
      db_op_bind _ _ (λ x. Dispatched fromisoformat run_id w x.1 x.0) there
        (λ gs. refused refl refl refl) (λ gs. started run alerts alert e q p h refl refl)

  queued-Dispatched :
      (run : Run)
      → get_run run_id w.db ≡ some run
      → is_queued run.processing_status ≡ true
      → Dispatched fromisoformat run_id w
          (dispatch_queued fromisoformat run_id run there).1
          (dispatch_queued fromisoformat run_id run there).0
  unfolding pure lift ◌>>=◌
  queued-Dispatched run e q =
      elim (Option-cases (parse_alertmanager_payload fromisoformat run.alert_payload)) [
        | inl p ↦ rw p (refused refl refl refl)
        | inr (alerts, p) ↦ rw p (alert-Dispatched run alerts e q p _ refl)
      ]

  run-Dispatched :
      (o : Option Run)
      → get_run run_id w.db ≡ o
      → Dispatched fromisoformat run_id w
          (dispatch_run fromisoformat run_id o there).1
          (dispatch_run fromisoformat run_id o there).0
  unfolding pure
  run-Dispatched none e = refused refl refl refl
  run-Dispatched (some run) e = elim (Bool-cases (is_queued run.processing_status)) [
    | inl q ↦ rw q (queued-Dispatched run e q)
    | inr q ↦ rw q (refused refl refl refl)
  ]

-- Whatever the database does, a call of `trigger_dispatch` either changes neither the database nor
-- starts a background run, and does not redirect; or the run is there and queued, its stored payload
-- parses to an alert, and the call has made the run pending, started a background run of that alert
-- without the cost breaker, and redirects.
pub trigger_dispatch-Dispatched :
    (fromisoformat : Text → Option ℕ) (run_id : Text) (w : World)
    → Dispatched fromisoformat run_id w
        (trigger_dispatch fromisoformat run_id w).1
        (trigger_dispatch fromisoformat run_id w).0
unfolding trigger_dispatch
trigger_dispatch-Dispatched fromisoformat run_id w =
    db_op_bind _ _ (λ x. Dispatched fromisoformat run_id w x.1 x.0) w (λ fs. refused refl refl refl)
      (λ fs. run-Dispatched fromisoformat run_id w fs _ refl)
