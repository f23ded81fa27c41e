-- ===== src/Api/Rows.antt =====
-- api/main.py: the rows that a batch of alerts adds.
use llopster.Base.{
  ℕ, ◌≡◌, refl, sym, ap, ◌∙◌, Option, none, some, List, [], ◌∷◌, ◌++◌, Bool, true, false, map, Text,
  lit, text_eq, text_eq_refl, append-nil, text_eq_comm, member, arith, Bool-cases, inl, inr, ◌≤◌,
}
use mathlib.Core.Bool.{true≢false}
use llopster.Alerts.{ParsedAlert, compute_dedup_key}
use llopster.Alerts.Payload.{RawAlert}
use llopster.Messages.{Exn, queued, awaiting_dispatch}
use llopster.Store.{
  Run, Db, create_run_from_alert, new_run, modify, change_row, update_status, set_status,
}
use llopster.Store.Dedup.{find_open_run_by_dedup_key, is_open_status}
use llopster.Store.Valid.{IsValidRun, run_id_of}
use llopster.Process.World.{World, Effect, task_created, Result, ok, raise, pure, emit, ◌>>=◌}
use llopster.Process.Rules.{db_op_bind}
use llopster.Process.Breaker.{Mode, manual, autopilot}
use llopster.Store.Stages.{status_because_write}
use llopster.System.{Steps, one, then_steps, created, staged, at}
use llopster.Api.Webhook.{Summary, webhook_alert, unless_open, dispatch_new}

abbrev pub IsFresh : (ℕ → Text) → ℕ → Db → Type 0
IsFresh fresh_id i db = (j : ℕ) → i ≤ j → member (fresh_id j) (map run_id_of db.runs) ≡ false

-- A key that no row has is changed only in a row behind.
pub change_row-append :
    (id : Text) (f : Run → Run) (row : Run) (runs : List Run)
    → member id (map run_id_of runs) ≡ false
    → text_eq row.id id ≡ true
    → change_row id f (runs ++ (row ∷ [])) ≡ runs ++ (f row ∷ [])
unfolding change_row member
change_row-append id f row [] h e = rw e
change_row-append id f row (run ∷ runs) h e =
    let ih = change_row-append id f row runs in
    elim (Bool-cases (text_eq id run.id)) [
      | inl t ↦ absurd (true≢false (sym (rw t) ∙ h))
      | inr t ↦ rw (text_eq_comm run.id id, t) (ap (λ rs. run ∷ rs) (ih (sym (rw t) ∙ h) e))
    ]

module _ (fresh_id : ℕ → Text) (now : ℕ → ℕ) (payload : List RawAlert) (mode : Mode) where
  -- The background runs that come with a new row.
  abbrev pub tasks : Mode → ℕ → ParsedAlert → List Effect
  tasks manual i alert = []
  tasks autopilot i alert = task_created (fresh_id i) alert none true ∷ []

  -- What the handling of one alert does: at most one row is added, and only if no open one was found.
  pub data Handled (i : ℕ) (alert : ParsedAlert) (u w : World) : Result Summary → Type 0 where
    failed : {e : Exn} → w.db ≡ u.db → w.effects ≡ u.effects → Handled i alert u w (raise e)
    deduped :
        {s : Summary} (run : Run)
        → find_open_run_by_dedup_key (compute_dedup_key alert) u.db ≡ some run
        → w.db ≡ u.db
        → w.effects ≡ u.effects
        → Handled i alert u w (ok s)
    added :
        {r : Result Summary} (row : Run)
        → find_open_run_by_dedup_key (compute_dedup_key alert) u.db ≡ none
        → row.id ≡ fresh_id i
        → row.dedup_key ≡ compute_dedup_key alert
        → is_open_status row.processing_status ≡ true
        → IsValidRun row
        → w.effects ≡ u.effects ++ tasks mode i alert
        → w.db ≡ record u.db { runs = u.db.runs ++ (row ∷ []) }
        → ((listed : List Run) → Steps (at u listed) (at w listed))
        → Handled i alert u w r

  module _ (i : ℕ) (alert : ParsedAlert) (w : World)
      (absent : find_open_run_by_dedup_key (compute_dedup_key alert) w.db ≡ none)
      (fresh : IsFresh fresh_id i w.db) where
    -- The row is there.
    made : List Bool → World
    made fs = record w {
      db = create_run_from_alert (fresh_id i) (now i) alert payload (lit "alertmanager") w.db;
      faults = fs;
    }

    first_step :
        (listed : List Run)
        → Steps (at w listed) (record {
          db = create_run_from_alert (fresh_id i) (now i) alert payload (lit "alertmanager") w.db;
          listed = listed;
        })
    first_step listed = one (
        created (at w listed) (fresh_id i) (now i) alert payload (lit "alertmanager")
          (fresh i (omega arith)))

    dispatch_new-Handled :
        (m : Mode) (fs : List Bool)
        → mode ≡ m
        → Handled i alert w
            (dispatch_new fresh_id now payload mode m (fresh_id i) alert (made fs)).1
            (dispatch_new fresh_id now payload mode m (fresh_id i) alert (made fs)).0
    unfolding made ◌>>=◌ pure emit new_run create_run_from_alert update_status modify
    dispatch_new-Handled autopilot fs e =
        added (new_run (fresh_id i) (now i) alert payload (lit "alertmanager")) absent refl refl
          refl (refl, λ m. absurd (cc)) (rw e) refl first_step
    dispatch_new-Handled manual fs e =
        db_op_bind _ _ (λ p. Handled i alert w p.1 p.0) (made fs)
          (λ gs.
            added (new_run (fresh_id i) (now i) alert payload (lit "alertmanager")) absent refl refl
              refl (refl, λ m. absurd (cc)) (rw e (sym (append-nil w.effects))) refl first_step)
          (λ gs.
            added
              (set_status queued (some awaiting_dispatch)
                (new_run (fresh_id i) (now i) alert payload (lit "alertmanager")))
              absent refl refl refl (refl, λ m. absurd (cc)) (rw e (sym (append-nil w.effects)))
              (ap (λ rs. record w.db { runs = rs })
                (change_row-append (fresh_id i) _ _ w.db.runs (fresh i (omega arith))
                  (text_eq_refl (fresh_id i))))
              (λ listed.
                then_steps _ (at (made gs) listed) _ (first_step listed)
                  (one (staged _ (fresh_id i) _ (status_because_write queued awaiting_dispatch)))))

  unless_open-Handled :
      (i : ℕ) (alert : ParsedAlert) (w : World) (fs : List Bool)
      → IsFresh fresh_id i w.db
      → (o : Option Run) → find_open_run_by_dedup_key (compute_dedup_key alert) w.db ≡ o
      → Handled i alert w
          (unless_open fresh_id now payload mode i alert o (record w { faults = fs })).1
          (unless_open fresh_id now payload mode i alert o (record w { faults = fs })).0
  unfolding made pure
  unless_open-Handled i alert w fs h (some run) e = deduped run e refl refl
  unless_open-Handled i alert w fs h none e =
      db_op_bind _ _ (λ p. Handled i alert w p.1 p.0) (record w { faults = fs })
        (λ gs. failed refl refl) (λ gs. dispatch_new-Handled i alert w e h mode gs refl)

  pub webhook_alert-Handled :
      (i : ℕ) (alert : ParsedAlert) (w : World)
      → IsFresh fresh_id i w.db
      → Handled i alert w
          (webhook_alert fresh_id now payload mode i alert w).1
          (webhook_alert fresh_id now payload mode i alert w).0
  unfolding webhook_alert
  webhook_alert-Handled i alert w h =
      db_op_bind _ _ (λ p. Handled i alert w p.1 p.0) w (λ fs. failed refl refl)
        (λ fs. unless_open-Handled i alert w fs h _ refl)
