-- ===== src/Api/Batch.antt =====
-- api/main.py: a batch of alerts.
use llopster.Base.{
  or_true, ℕ, ◌≡◌, refl, sym, ap, ◌∙◌, List, [], ◌∷◌, ◌++◌, true, Text, text_eq_refl, suc, any, All,
  is_some, any-append, append-nil,
}
use llopster.Alerts.{ParsedAlert, compute_dedup_key}
use llopster.Alerts.Payload.{RawAlert}
use llopster.Store.{Run}
use llopster.Store.Dedup.{is_open_for}
use llopster.Store.Newest.{has_open, is_some-find_open_run_by_dedup_key}
use llopster.Store.Valid.{IsValidDb}
use llopster.Process.World.{World, Result, ok, raise, pure, M, continue, ◌>>=◌}
use llopster.Process.Breaker.{Mode, manual}
use llopster.System.{Steps, at, none_yet, then_steps}
use llopster.Api.Webhook.{Summary, webhook_alerts}
use llopster.Api.Rows.{Handled, failed, deduped, added, webhook_alert-Handled, tasks}
use llopster.Api.Once.{AreDistinctIds, AtMostOneOpen, Ready, Handled-Ready}

-- The state behind a batch that started from `u`.
pub record Batch (mode : Mode) (alerts : List ParsedAlert) (u w : World) (r : Result (List Summary))
    : Type 0 where
  pub single : AtMostOneOpen w.db
  pub valid : IsValidDb w.db
  pub grows : (key : Text) → has_open key u.db ≡ true → has_open key w.db ≡ true
  pub opens :
      (answer : List Summary)
      → r ≡ ok answer
      → All (λ alert. has_open (compute_dedup_key alert) w.db ≡ true) alerts
  pub silent : mode ≡ manual → w.effects ≡ u.effects
  pub steps : (listed : List Run) → Steps (at u listed) (at w listed)

pub same_db : (u w : World) (listed : List Run) → w.db ≡ u.db → Steps (at u listed) (at w listed)
same_db u w listed e = rw e (none_yet (at u listed))

no_tasks :
    (fresh_id : ℕ → Text) (now : ℕ → ℕ) (payload : List RawAlert) (mode : Mode) (i : ℕ)
    (alert : ParsedAlert)
    → mode ≡ manual
    → tasks fresh_id now payload mode mode i alert ≡ []
no_tasks fresh_id now payload mode i alert e = rw e

module _ (fresh_id : ℕ → Text) (distinct : AreDistinctIds fresh_id) (now : ℕ → ℕ)
    (payload : List RawAlert) (mode : Mode) where
  Handled-grows :
      {i : ℕ} {alert : ParsedAlert} {u w : World} {r : Result Summary}
      → Handled fresh_id now payload mode i alert u w r
      → (key : Text) → has_open key u.db ≡ true
      → has_open key w.db ≡ true
  Handled-grows (failed d x) key h = rw d h
  Handled-grows (deduped run f d x) key h = rw d h
  Handled-grows {u} (added row f e k o v x d t) key h =
      rw (d, any-append (is_open_for key) u.db.runs (row ∷ []), h)

  Handled-opens :
      {i : ℕ} {alert : ParsedAlert} {u w : World} {s : Summary}
      → Handled fresh_id now payload mode i alert u w (ok s)
      → has_open (compute_dedup_key alert) w.db ≡ true
  Handled-opens {alert} {u} (deduped run f d x) =
      rw d (sym (is_some-find_open_run_by_dedup_key (compute_dedup_key alert) u.db) ∙ ap is_some f)
  Handled-opens {alert} {u} (added row f e k o v x d t) =
      rw
        (
          d,
          any-append (is_open_for (compute_dedup_key alert)) u.db.runs (row ∷ []),
          k,
          text_eq_refl (compute_dedup_key alert),
          o,
        )
        (or_true (any (is_open_for (compute_dedup_key alert)) u.db.runs))

  Handled-silent :
      {i : ℕ} {alert : ParsedAlert} {u w : World} {r : Result Summary}
      → Handled fresh_id now payload mode i alert u w r
      → mode ≡ manual
      → w.effects ≡ u.effects
  Handled-silent (failed d x) e = x
  Handled-silent (deduped run f d x) e = x
  Handled-silent {i} {alert} {u} (added row f _ k o v x d t) e =
      x
      ∙ (ap (λ t. u.effects ++ t) (no_tasks fresh_id now payload mode i alert e)
          ∙ append-nil u.effects)

  Handled-Steps :
      {i : ℕ} {alert : ParsedAlert} {u w : World} {r : Result Summary}
      → Handled fresh_id now payload mode i alert u w r
      → (listed : List Run) → Steps (at u listed) (at w listed)
  Handled-Steps {u} {w} (failed d x) listed = same_db u w listed d
  Handled-Steps {u} {w} (deduped run f d x) listed = same_db u w listed d
  Handled-Steps (added row f e k o v x d t) listed = t listed

  -- The answer is put together behind the rest of the batch.
  wrap :
      {i : ℕ} {alert : ParsedAlert} {alerts : List ParsedAlert} {u v x : World} {s : Summary}
      (q : Result (List Summary))
      → Handled fresh_id now payload mode i alert u v (ok s)
      → Batch mode alerts v x q
      → Batch mode
          (alert ∷ alerts)
          u
          (continue q (λ others. pure (s ∷ others)) x).1
          (continue q (λ others. pure (s ∷ others)) x).0
  unfolding pure
  wrap {v} (ok others) h b = record {
    single = b.single;
    valid = b.valid;
    grows = λ key e. b.grows key (Handled-grows h key e);
    opens = λ answer e. (b.grows _ (Handled-opens h), b.opens others refl);
    silent = λ e. b.silent e ∙ Handled-silent h e;
    steps = λ listed. then_steps _ (at v listed) _ (Handled-Steps h listed) (b.steps listed);
  }
  wrap {v} (raise x) h b = record {
    single = b.single;
    valid = b.valid;
    grows = λ key e. b.grows key (Handled-grows h key e);
    opens = λ answer e. absurd (cc);
    silent = λ e. b.silent e ∙ Handled-silent h e;
    steps = λ listed. then_steps _ (at v listed) _ (Handled-Steps h listed) (b.steps listed);
  }

  abbrev behind : ℕ → List ParsedAlert → Summary → M (List Summary)
  behind i alerts first =
      webhook_alerts fresh_id now payload mode (suc i) alerts >>= λ others. pure (first ∷ others)

  Batch-step :
      (i : ℕ) (alert : ParsedAlert) (alerts : List ParsedAlert) (u v : World) (r : Result Summary)
      → Handled fresh_id now payload mode i alert u v r
      → Ready fresh_id i u.db
      → (Ready fresh_id (suc i) v.db
          → Batch mode alerts v
              (webhook_alerts fresh_id now payload mode (suc i) alerts v).1
              (webhook_alerts fresh_id now payload mode (suc i) alerts v).0)
      → Batch mode
          (alert ∷ alerts)
          u
          (continue r (behind i alerts) v).1
          (continue r (behind i alerts) v).0
  unfolding ◌>>=◌
  Batch-step i alert alerts u v (ok s) h ready rest =
      wrap _ h (rest (Handled-Ready fresh_id distinct now payload mode h ready))
  Batch-step i alert alerts u v (raise x) h ready rest =
      let next = Handled-Ready fresh_id distinct now payload mode h ready in
      record {
        single = next.single;
        valid = next.valid;
        grows = Handled-grows h;
        opens = λ answer e. absurd (cc);
        silent = Handled-silent h;
        steps = Handled-Steps h;
      }

  pub webhook_alerts-Batch :
      (i : ℕ) (alerts : List ParsedAlert) (w : World)
      → Ready fresh_id i w.db
      → Batch mode alerts w
          (webhook_alerts fresh_id now payload mode i alerts w).1
          (webhook_alerts fresh_id now payload mode i alerts w).0
  unfolding webhook_alerts pure ◌>>=◌
  webhook_alerts-Batch i [] w h = record {
    single = h.single;
    valid = h.valid;
    grows = λ key e. e;
    opens = λ answer e. tt;
    silent = λ e. refl;
    steps = λ listed. none_yet _;
  }
  webhook_alerts-Batch i (alert ∷ alerts) w h =
      Batch-step i alert alerts w _ _
        (webhook_alert-Handled fresh_id now payload mode i alert w h.fresh) h
        (λ r. webhook_alerts-Batch (suc i) alerts _ r)
