-- ===== src/Api/Queue.antt =====
-- api/main.py and api/trigger_routes.py: a run that the webhook has parked, and its dispatch.
use mathlib.Core.Bool.{true≢false}
use llopster.Base.{
  some_inj, ℕ, ◌≡◌, refl, sym, ap, ◌∙◌, Option, none, some, List, [], ◌∷◌, ◌++◌, true, false, map,
  Text, text_eq, text_eq_refl, text_eq_comm, lit, Bool-cases, inl, inr, member, Has, AreDistinct,
}
use llopster.Alerts.{ParsedAlert}
use llopster.Alerts.Payload.{RawAlert, parse_alertmanager_payload}
use llopster.Alerts.RoundTrip.{pick_alert-Has}
use llopster.Messages.{pending, queued, awaiting_dispatch}
use llopster.Store.{
  Run, Db, get_run, find_row, update_status, create_run_from_alert, set_status, new_run,
}
use llopster.Store.Valid.{run_id_of}
use llopster.Store.Laws.{get_run-modify}
use llopster.Process.World.{World, Effect, task_created, Result, ok, pure, lift, emit, db_op, ◌>>=◌}
use llopster.Alerts.{compute_dedup_key}
use llopster.Store.Dedup.{find_open_run_by_dedup_key}
use llopster.Process.Breaker.{manual}
use llopster.Api.Webhook.{webhook_alert}
use llopster.Api.Trigger.{Response, redirect, trigger_dispatch, is_queued}
use llopster.Api.Dispatch.{Dispatched, refused, started, is_redirect, trigger_dispatch-Dispatched}

module _ (fromisoformat : Text → Option ℕ) (run_id : Text) where
  marked :
      (db : Db) (run : Run)
      → get_run run_id db ≡ some run
      → get_run run_id (update_status run_id pending none db) ≡ some (set_status pending none run)
  unfolding update_status
  marked db run e = rw (
    get_run-modify run_id run_id (set_status pending none) db (λ r. refl),
    text_eq_refl run_id,
    e,
  )

  not_again :
      {v v' : World} {r : Result Response} (run : Run)
      → get_run run_id v.db ≡ some run
      → is_queued run.processing_status ≡ false
      → Dispatched fromisoformat run_id v v' r
      → (v'.db ≡ v.db) × (v'.effects ≡ v.effects) × (is_redirect r ≡ false)
  not_again run e q (refused r d x) = (d, x, r)
  not_again run e q (started other _ _ f p _ _ _ _) =
      absurd
        (true≢false (sym p ∙ ap (λ s. is_queued s.processing_status) (some_inj (sym f ∙ e)) ∙ q))

  Dispatched-once :
      {w w' v v' : World} {r s : Result Response}
      → Dispatched fromisoformat run_id w w' r
      → r ≡ ok (redirect run_id)
      → v.db ≡ w'.db
      → Dispatched fromisoformat run_id v v' s
      → (v'.db ≡ v.db) × (v'.effects ≡ v.effects) × (is_redirect s ≡ false)
  Dispatched-once (refused h d x) e f second = absurd (true≢false (sym (ap is_redirect e) ∙ h))
  Dispatched-once {w} (started run alerts alert g q p k d x) e f second =
      not_again (set_status pending none run) (ap (get_run run_id) (f ∙ d) ∙ marked w.db run g) refl
        second

  -- When a call of `trigger_dispatch` has redirected, a second call for the same run, on the same
  -- database, neither changes it nor starts a background run, and does not redirect.
  trigger_dispatch_once :
      (w v : World)
      → (trigger_dispatch fromisoformat run_id w).0 ≡ ok (redirect run_id)
      → v.db ≡ (trigger_dispatch fromisoformat run_id w).1.db
      → ((trigger_dispatch fromisoformat run_id v).1.db ≡ v.db)
        × ((trigger_dispatch fromisoformat run_id v).1.effects ≡ v.effects)
        × (is_redirect (trigger_dispatch fromisoformat run_id v).0 ≡ false)
  trigger_dispatch_once w v e f =
      Dispatched-once (trigger_dispatch-Dispatched fromisoformat run_id w) e f
        (trigger_dispatch-Dispatched fromisoformat run_id v)

find_row-append :
    (id : Text) (row : Run) (runs : List Run)
    → member id (map run_id_of runs) ≡ false
    → text_eq row.id id ≡ true
    → find_row id (runs ++ (row ∷ [])) ≡ some row
unfolding find_row member
find_row-append id row [] h e = rw e
find_row-append id row (run ∷ runs) h e = elim (Bool-cases (text_eq id run.id)) [
  | inl t ↦ absurd (true≢false (sym (rw t) ∙ h))
  | inr t ↦ rw (text_eq_comm run.id id, t) (find_row-append id row runs (sym (rw t) ∙ h) e)
]

module _ (id : Text) (now : ℕ) (alert : ParsedAlert) (payload : List RawAlert) (db : Db) where
  -- The table with a parked run.
  abbrev parked : Db
  parked =
      update_status id queued (some awaiting_dispatch)
        (create_run_from_alert id now alert payload (lit "alertmanager") db)

  abbrev parked_row : Run
  parked_row =
      set_status queued (some awaiting_dispatch) (new_run id now alert payload (lit "alertmanager"))

  get_run-created :
      member id (map run_id_of db.runs) ≡ false
      → get_run id (create_run_from_alert id now alert payload (lit "alertmanager") db)
        ≡ some (new_run id now alert payload (lit "alertmanager"))
  unfolding get_run create_run_from_alert new_run
  get_run-created fresh = find_row-append id _ db.runs fresh (text_eq_refl id)

  get_run-parked : member id (map run_id_of db.runs) ≡ false → get_run id parked ≡ some parked_row
  unfolding update_status
  get_run-parked fresh = rw (
    get_run-modify id id (set_status queued (some awaiting_dispatch))
        (create_run_from_alert id now alert payload (lit "alertmanager") db) (λ r. refl),
    text_eq_refl id,
    get_run-created fresh,
  )

module _ (fromisoformat : Text → Option ℕ) (fresh_id : ℕ → Text) (now : ℕ → ℕ) (i : ℕ)
    (alert : ParsedAlert) (payload : List RawAlert) (alerts : List ParsedAlert) (db : Db)
    (effects : List Effect) where
  abbrev pub calm : World
  calm = record { db = db; faults = []; effects = effects }

  -- The world behind the webhook's handling of the alert in manual mode.
  abbrev pub after_webhook : World
  after_webhook = (webhook_alert fresh_id now payload manual i alert calm).1

  webhook_alert-parked :
      find_open_run_by_dedup_key (compute_dedup_key alert) db ≡ none
      → after_webhook ≡ record {
        db = parked (fresh_id i) (now i) alert payload db;
        faults = [];
        effects = effects;
      }
  unfolding webhook_alert ◌>>=◌ db_op pure
  webhook_alert-parked absent = rw absent

  -- Where no use of the database fails: the webhook parks the run of an alert that has no open run,
  -- in manual mode and with a primary key that is new. If the run is dispatched next, and the
  -- fingerprints of the payload differ, a background run of that very alert is started, with the
  -- cost breaker off, and the row is pending. It keeps the error message of a parked run.
  pub trigger_dispatch-parked :
      find_open_run_by_dedup_key (compute_dedup_key alert) db ≡ none
      → member (fresh_id i) (map run_id_of db.runs) ≡ false
      → parse_alertmanager_payload fromisoformat payload ≡ some alerts
      → AreDistinct (map (λ a. a.fingerprint) alerts)
      → Has alert alerts
      → ((trigger_dispatch fromisoformat (fresh_id i) after_webhook).0 ≡ ok (redirect (fresh_id i)))
        × ((trigger_dispatch fromisoformat (fresh_id i) after_webhook).1.effects
            ≡ effects ++ (task_created (fresh_id i) alert none false ∷ []))
        × (get_run (fresh_id i) (trigger_dispatch fromisoformat (fresh_id i) after_webhook).1.db
            ≡ some (record (new_run (fresh_id i) (now i) alert payload (lit "alertmanager")) {
              error_message = some awaiting_dispatch;
            }))
  unfolding trigger_dispatch ◌>>=◌ db_op pure lift emit new_run
  trigger_dispatch-parked absent fresh p d m =
      let found = get_run-parked (fresh_id i) (now i) alert payload db fresh in
      rw (webhook_alert-parked absent, found, p, pick_alert-Has alert alerts d m)
        (
          refl,
          refl,
          marked fromisoformat (fresh_id i) (parked (fresh_id i) (now i) alert payload db)
              (parked_row (fresh_id i) (now i) alert payload db) found,
        )
