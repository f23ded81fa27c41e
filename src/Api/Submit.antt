-- ===== src/Api/Submit.antt =====
-- api/trigger_routes.py: what `trigger_submit` does on each of its branches.
use llopster.Base.{
  some_inj, ℕ, if◌then◌else◌, ◌≡◌, refl, sym, ap, ◌∙◌, Option, none, some, List, [], ◌∷◌, ◌++◌,
  Bool, false, arith, ◌||◌, Text, text_eq, text_eq_refl, eq_of_text_eq, lit, is_empty, Option-cases,
  Bool-cases, inl, inr,
}
use llopster.Base.Int.{ℤ}
use llopster.Alerts.{ParsedAlert, or_empty, get}
use llopster.Alerts.Payload.{
  RawAlert, parse_alertmanager_payload, pick_alert, with_fingerprint, alert_to_payload,
}
use llopster.Alerts.RoundTrip.{IsLabelled, parse-alert_to_payload}
use llopster.Store.{Run, get_run, create_run_from_alert}
use llopster.Process.World.{
  World, task_created, M, Result, ok, raise, pure, lift, emit, continue, ◌>>=◌,
}
use llopster.Process.Rules.{db_op_bind}
use llopster.Api.Trigger.{
  Form, Fresh, Response, http_exception, redirect, synthesized, start, replay, replay_run,
  replay_alert, synthesize, trigger_submit, effective_lookback,
}
use llopster.Api.Dispatch.{is_redirect}
use llopster.Api.Asked.{
  IsLookback, Asked, replayed, made, effective_lookback-IsLookback, synthesized-IsSynthesized,
}

-- The alert without its times and its generator URL.
abbrev pub untimed : ParsedAlert → ParsedAlert
untimed alert = record alert { starts_at = none; ends_at = none; generator_url = [] }

-- The stored payload parses, and what is read from it is the alert but for its times.
pub record IsReplayable (fromisoformat : Text → Option ℕ) (alert : ParsedAlert)
    (payload : List RawAlert) : Type 0 where
  pub alerts : List ParsedAlert
  pub stored : ParsedAlert
  pub parsed : parse_alertmanager_payload fromisoformat payload ≡ some alerts
  pub picked : pick_alert alert.fingerprint alerts ≡ some stored
  pub same : untimed stored ≡ untimed alert

-- What a call does: it does nothing and does not redirect, or it creates and starts a run.
pub data Submitted (fresh : Fresh) (form : Form) (w w' : World) : Result Response → Type 0 where
  refused :
      {r : Result Response}
      → is_redirect r ≡ false
      → w'.db ≡ w.db
      → w'.effects ≡ w.effects
      → Submitted fresh form w w' r
  submitted :
      (alert : ParsedAlert) (payload : List RawAlert) (lookback : Option ℤ)
      → Asked fresh form w.db alert payload
      → IsLookback form.lookback_minutes lookback
      → IsReplayable fresh.fromisoformat alert payload
      → w'.db
        ≡ create_run_from_alert fresh.run_id fresh.created_at alert payload (lit "manual") w.db
      → w'.effects ≡ w.effects ++ (task_created fresh.run_id alert lookback false ∷ [])
      → Submitted fresh form w w' (ok (redirect fresh.run_id))

picked_found :
    (fingerprint : Text) (alerts : List ParsedAlert) (alert : ParsedAlert)
    → with_fingerprint fingerprint alerts ≡ some alert
    → alert.fingerprint ≡ fingerprint
unfolding with_fingerprint
picked_found fingerprint [] alert e = absurd (cc)
picked_found fingerprint (a ∷ alerts) alert e =
    elim (Bool-cases (text_eq a.fingerprint fingerprint)) [
      | inl t ↦ ap (λ x. x.fingerprint) (sym (some_inj (rw t at e))) ∙ eq_of_text_eq _ _ t
      | inr t ↦ picked_found fingerprint alerts alert (rw t at e)
    ]

head_again :
    (fingerprint : Text) (alerts : List ParsedAlert) (alert : ParsedAlert)
    → with_fingerprint fingerprint alerts ≡ none
    → pick_alert fingerprint alerts ≡ some alert
    → pick_alert alert.fingerprint alerts ≡ some alert
unfolding pick_alert with_fingerprint
head_again fingerprint [] alert n e = absurd (cc)
head_again fingerprint (a ∷ alerts) alert n e =
    let h = some_inj (rw (pick_alert, n) at e) in
    rw (← h, pick_alert, with_fingerprint, text_eq_refl a.fingerprint)

pick_alert_single : (alert : ParsedAlert) → pick_alert alert.fingerprint (alert ∷ []) ≡ some alert
unfolding pick_alert with_fingerprint
pick_alert_single alert = rw (pick_alert, with_fingerprint, text_eq_refl alert.fingerprint)

-- The alert that was picked is picked by its own fingerprint.
pick_alert_again :
    (fingerprint : Text) (alerts : List ParsedAlert) (alert : ParsedAlert)
    → pick_alert fingerprint alerts ≡ some alert
    → pick_alert alert.fingerprint alerts ≡ some alert
unfolding pick_alert
pick_alert_again fingerprint alerts alert e =
    elim (Option-cases (with_fingerprint fingerprint alerts)) [
      | inl n ↦ head_again fingerprint alerts alert n e
      | inr (a, s) ↦
          ap (λ f. pick_alert f alerts)
            (ap (λ x. x.fingerprint) (sym (some_inj (rw (pick_alert, s) at e)))
              ∙ picked_found fingerprint alerts a s)
          ∙ e
    ]

synthesized-IsLabelled : (fresh : Fresh) (form : Form) → IsLabelled (synthesized fresh form)
unfolding get lit text_eq synthesized
synthesized-IsLabelled fresh form = record {
  alertname = refl;
  severity = refl;
  service = refl;
  summary = refl;
  description = refl;
}

or_false : (a b : Bool) → (a || b) ≡ false → (a ≡ false) × (b ≡ false)
or_false a b h = (ground arith, ground arith)

module _ (fresh : Fresh) (form : Form) (w : World) where
  start-Submitted :
      (fs : List Bool) (alert : ParsedAlert) (payload : List RawAlert) (lookback : Option ℤ)
      → Asked fresh form w.db alert payload
      → IsLookback form.lookback_minutes lookback
      → IsReplayable fresh.fromisoformat alert payload
      → Submitted fresh form w
          (start fresh alert payload lookback (record w { faults = fs })).1
          (start fresh alert payload lookback (record w { faults = fs })).0
  unfolding start pure emit ◌>>=◌
  start-Submitted fs alert payload lookback a l h =
      db_op_bind _ _ (λ x. Submitted fresh form w x.1 x.0) (record w { faults = fs })
        (λ gs. refused refl refl refl) (λ gs. submitted alert payload lookback a l h refl refl)

  alert-Submitted :
      (fs : List Bool) (lookback : Option ℤ) (run : Run) (alerts : List ParsedAlert)
      → form.mode ≡ lit "replay"
      → IsLookback form.lookback_minutes lookback
      → get_run (or_empty form.replay_run_id) w.db ≡ some run
      → parse_alertmanager_payload fresh.fromisoformat run.alert_payload ≡ some alerts
      → (o : Option ParsedAlert) → pick_alert run.fingerprint alerts ≡ o
      → Submitted fresh form w
          (replay_alert fresh lookback run.alert_payload o (record w { faults = fs })).1
          (replay_alert fresh lookback run.alert_payload o (record w { faults = fs })).0
  unfolding pure
  alert-Submitted fs lookback run alerts mode l g p none h = refused refl refl refl
  alert-Submitted fs lookback run alerts mode l g p (some alert) h =
      start-Submitted fs alert run.alert_payload lookback (replayed run alerts mode g p h) l
        (record {
          alerts = alerts;
          stored = alert;
          parsed = p;
          picked = pick_alert_again run.fingerprint alerts alert h;
          same = refl;
        })

  run-Submitted :
      (fs : List Bool) (lookback : Option ℤ) (o : Option Run)
      → form.mode ≡ lit "replay"
      → IsLookback form.lookback_minutes lookback
      → get_run (or_empty form.replay_run_id) w.db ≡ o
      → Submitted fresh form w
          (replay_run fresh lookback o (record w { faults = fs })).1
          (replay_run fresh lookback o (record w { faults = fs })).0
  unfolding pure lift ◌>>=◌
  run-Submitted fs lookback none mode l g = refused refl refl refl
  run-Submitted fs lookback (some run) mode l g =
      elim (Option-cases (parse_alertmanager_payload fresh.fromisoformat run.alert_payload)) [
        | inl p ↦ rw p (refused refl refl refl)
        | inr (alerts, p) ↦ rw p (alert-Submitted fs lookback run alerts mode l g p _ refl)
      ]

  replay-Submitted :
      (lookback : Option ℤ)
      → form.mode ≡ lit "replay"
      → IsLookback form.lookback_minutes lookback
      → Submitted fresh form w (replay fresh form lookback w).1 (replay fresh form lookback w).0
  unfolding replay pure
  replay-Submitted lookback mode l = elim (Bool-cases (is_empty (or_empty form.replay_run_id))) [
    | inl e ↦ rw e (refused refl refl refl)
    | inr e ↦ rw e (
        db_op_bind _ _ (λ x. Submitted fresh form w x.1 x.0) w (λ fs. refused refl refl refl)
          (λ fs. run-Submitted fs lookback _ mode l refl))
  ]

  synthesize-Submitted :
      (lookback : Option ℤ)
      → form.mode ≡ lit "synthesize"
      → IsLookback form.lookback_minutes lookback
      → Submitted fresh form w
          (synthesize fresh form lookback w).1
          (synthesize fresh form lookback w).0
  unfolding synthesize pure
  synthesize-Submitted lookback mode l =
      elim (Bool-cases (is_empty (or_empty form.service) || is_empty (or_empty form.alertname))) [
        | inl e ↦ rw e (refused refl refl refl)
        | inr e ↦ rw e (
            let given = or_false (is_empty (or_empty form.service)) _ e in
            start-Submitted w.faults (synthesized fresh form)
              (alert_to_payload fresh.isoformat (synthesized fresh form) ∷ []) lookback
              (made mode (synthesized-IsSynthesized fresh form given.0 given.1)) l
              (record {
                alerts = untimed (synthesized fresh form) ∷ [];
                stored = untimed (synthesized fresh form);
                parsed =
                    parse-alert_to_payload fresh.fromisoformat fresh.isoformat
                      (synthesized fresh form) (synthesized-IsLabelled fresh form);
                picked = pick_alert_single (untimed (synthesized fresh form));
                same = refl;
              }))
      ]

  abbrev submit_with : Option ℤ → M Response
  submit_with lookback =
      if text_eq form.mode (lit "replay")
      then replay fresh form lookback
      else if text_eq form.mode (lit "synthesize")
      then synthesize fresh form lookback
      else pure (http_exception 422)

  submit_with-Submitted :
      (lookback : Option ℤ)
      → IsLookback form.lookback_minutes lookback
      → Submitted fresh form w (submit_with lookback w).1 (submit_with lookback w).0
  unfolding pure
  submit_with-Submitted lookback l = elim (Bool-cases (text_eq form.mode (lit "replay"))) [
    | inl e ↦ rw e (replay-Submitted lookback (eq_of_text_eq _ _ e) l)
    | inr e ↦ elim (Bool-cases (text_eq form.mode (lit "synthesize"))) [
      | inl f ↦ rw (e, f) (synthesize-Submitted lookback (eq_of_text_eq _ _ f) l)
      | inr f ↦ rw (e, f) (refused refl refl refl)
    ]
  ]

  looked_back-Submitted :
      (q : Result (Option ℤ))
      → effective_lookback form.lookback_minutes ≡ q
      → Submitted fresh form w (continue q submit_with w).1 (continue q submit_with w).0
  looked_back-Submitted (ok lookback) e =
      submit_with-Submitted lookback
        (effective_lookback-IsLookback form.lookback_minutes lookback e)
  looked_back-Submitted (raise x) e = refused refl refl refl

-- Whatever the form is and wherever the database fails, a call of `trigger_submit` either changes
-- neither the database nor starts a background run, and does not redirect; or it appends one row for
-- the alert that the form asks for, starts a background run of that alert with the lookback of the
-- form and without the cost breaker, and redirects to it. The stored payload of the row then parses,
-- and a later dispatch or replay of the row reads the alert from it, but for its times and its
-- generator URL.
pub trigger_submit-Submitted :
    (fresh : Fresh) (form : Form) (w : World)
    → Submitted fresh form w (trigger_submit fresh form w).1 (trigger_submit fresh form w).0
unfolding trigger_submit lift ◌>>=◌
trigger_submit-Submitted fresh form w =
    looked_back-Submitted fresh form w (effective_lookback form.lookback_minutes) refl
