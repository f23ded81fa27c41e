-- ===== src/Context/Held.antt =====
-- agent/processor.py with agent/context_collector.py: a run that goes on past the collection of
-- its context had no suspended Flux object in it.
use mathlib.Core.List.{cons≢nil}
use llopster.Base.{
  ◌≡◌, refl, sym, ap, ◌∙◌, Option, List, [], ◌∷◌, Bool, true, false, filter, map, All, Has,
  Bool-cases, inl, inr, Text,
}
use llopster.Base.Int.{ℤ}
use llopster.Alerts.{ParsedAlert}
use llopster.Process.World.{
  Env, World, Answer, returned, raised, Collected, HeldObject, Effect, investigation_called,
  synthesis_called, github_called,
}
use llopster.Process.World
use llopster.Process.Post.{Settings}
use llopster.Process.Gates.{Options, read_settings}
use llopster.Process.Alert.{process_alert}
use llopster.Process.Results.{process_alert-Permitted}
use llopster.Process.Reach.{
  Unheld, Permitted, triages, collects, investigates, synthesises, notifies, opens,
}
use mathlib.Core.Bool.{true≢false}
use llopster.Cluster.Objects.{Library, FluxObjectState}
use llopster.Cluster.Session.{Server, Session, Result, ok, failed}
use llopster.Context.Collect.{AlertContext, ContextCollector, collect}
use llopster.Context.Pipeline.{
  delivering, suspended, held_object, active_collector, collected, answer_of, collect_for,
}

nothing-map {ℓ κ} : {A : Type ℓ} {B : Type κ} (f : A → B) (xs : List A) → map f xs ≡ [] → xs ≡ []
nothing-map f [] h = refl
nothing-map f (x ∷ xs) h = absurd (cons≢nil h)

All-filter_none {ℓ} :
    {A : Type ℓ} (p : A → Bool) (xs : List A) → filter p xs ≡ [] → All (λ x. p x ≡ false) xs
All-filter_none p [] h = tt
All-filter_none p (x ∷ xs) h = elim (Bool-cases (p x)) [
  | inl e ↦ absurd (cons≢nil {x = x} {xs = filter p xs} (sym (rw e) ∙ h))
  | inr e ↦ (e, All-filter_none p xs (sym (rw e) ∙ h))
]

abbrev held_in : Answer Collected → List HeldObject
held_in (returned c) = c.held
held_in (raised e) = []

-- The context that was collected for a run, with no Flux object suspended among those that deliver
-- what the alert is about.
pub record IsFree {Float : Type 0} (collector : ContextCollector Float) (library : Library)
    (server : Server) (session : Session) (alert : ParsedAlert) (minutes : Option ℤ) : Type 0 where
  pub ctx : AlertContext Float
  pub collected :
      (collect (active_collector collector minutes) library server alert session).0 ≡ ok ctx
  pub free : All (λ o. o.suspended ≡ false) (delivering ctx.cluster_state)

module _ {Float : Type 0} (collector : ContextCollector Float) (library : Library) (server : Server)
    (session : Session) (alert : ParsedAlert) (minutes : Option ℤ) where
  answer-IsFree :
      (r : Result (AlertContext Float)) (c : Collected)
      → (collect (active_collector collector minutes) library server alert session).0 ≡ r
      → answer_of (active_collector collector minutes) r ≡ returned c
      → c.held ≡ []
      → IsFree collector library server session alert minutes
  unfolding collected
  answer-IsFree (ok ctx) c e h free = record {
    ctx = ctx;
    collected = e;
    free =
        All-filter_none (λ (o : FluxObjectState). o.suspended) (delivering ctx.cluster_state)
          (nothing-map held_object (suspended (delivering ctx.cluster_state))
            (ap held_in h ∙ free));
  }
  answer-IsFree (failed x) c e h free = absurd (cc)

  collect_for-IsFree :
      (c : Collected)
      → collect_for collector library server session alert minutes ≡ returned c
      → c.held ≡ []
      → IsFree collector library server session alert minutes
  unfolding collect_for
  collect_for-IsFree c h free =
      answer-IsFree (collect (active_collector collector minutes) library server alert session).0 c
        refl h free

-- The calls of the investigator, of the patch generator and of GitHub.
abbrev pub goes_on : Effect → Bool
goes_on investigation_called = true
goes_on (synthesis_called previous) = true
goes_on (github_called requests) = true
goes_on _ = false

Permitted-Unheld :
    (env : Env) (alert : ParsedAlert) (settings : Settings) (e : Effect)
    → goes_on e ≡ true
    → Permitted env alert settings e
    → (ctx : Collected) × Unheld env alert settings ctx
Permitted-Unheld env alert settings _ h triages = absurd (true≢false (sym h))
Permitted-Unheld env alert settings _ h collects = absurd (true≢false (sym h))
Permitted-Unheld env alert settings _ h (investigates {ctx} u) = (ctx, u)
Permitted-Unheld env alert settings _ h (synthesises {p} {ctx} u) = (ctx, u)
Permitted-Unheld env alert settings _ h notifies = absurd (true≢false (sym h))
Permitted-Unheld env alert settings _ h (opens o) = (o.answered.ctx, o.answered.unheld)

-- Where the context of the runs is collected by a collector in any state: a run that calls the
-- investigator, the patch generator or GitHub has collected its context, with the lookback of its
-- settings, and none of the Flux objects of that context, which deliver what the alert is about, is
-- suspended.
pub process_alert-unsuspended :
    {Float : Type 0} (collector : ContextCollector Float) (library : Library) (server : Server)
    (session : Session) (env : Env) (run_id : Text) (alert : ParsedAlert) (options : Options)
    → env.collect ≡ collect_for collector library server session
    → (w : World) (e : Effect) → w.effects ≡ []
    → Has e (process_alert env run_id alert options w).effects
    → goes_on e ≡ true
    → (settings : Settings) × ((read_settings env run_id alert options w).0 ≡ World.ok settings)
      × IsFree collector library server session alert settings.lookback_minutes
process_alert-unsuspended collector library server session env run_id alert options same w e fresh h
      g =
    let (settings, read, p) = process_alert-Permitted env run_id alert options w e fresh h in
    let (ctx, unheld) = Permitted-Unheld env alert settings e g p in
    (
      settings,
      read,
      collect_for-IsFree collector library server session alert settings.lookback_minutes ctx
          (ap (λ f. f alert settings.lookback_minutes) (sym same) ∙ unheld.collected) unheld.free,
    )
