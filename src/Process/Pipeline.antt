-- ===== src/Process/Pipeline.antt =====
-- agent/processor.py: the body of the run, as its first part and a world that it reaches.
use llopster.Base.{◌≡◌, refl, ◌∙◌, List, [], ◌∷◌, Bool, true, false, Text}
use llopster.Alerts.{ParsedAlert}
use llopster.Store.{Db}
use llopster.Process.World.{
  Env, World, M, Result, ok, raise, continue, query, lift, pure, run_db, db_op, ◌>>=◌,
}
use llopster.Process.Post.{Settings}
use llopster.Process.Gates.{Options, read_settings, prefilter, pipeline}
use llopster.Messages.{Exn}
use llopster.Process.Reach.{Reaches, Call, Settled}
use llopster.Process.Rules
use llopster.Process.Rules.{Runs}
use llopster.Process.Sound.Gates.{prefilter-Ends}

-- Only entries of `faults` are used up.
abbrev pub Quiet : World → World → Type 0
Quiet u w = (w.db ≡ u.db) × (w.effects ≡ u.effects) × (u.faults ≡ [] → w.faults ≡ [])

Quiet-trans : (u v w : World) → Quiet u v → Quiet v w → Quiet u w
Quiet-trans u v w a b = (b.0 ∙ a.0, b.1 ∙ a.1, λ e. b.2 (a.2 e))

run_db_query :
    {A : Type 0} (f : Db → A) (faults : List Bool) (w : World)
    → w.faults ≡ faults
    → Quiet w (run_db faults (λ db. (f db, db)) w).1
run_db_query f [] w e = (refl, refl, λ h. h)
run_db_query f (true ∷ faults) w e = (refl, refl, λ h. absurd (cc))
run_db_query f (false ∷ faults) w e = (refl, refl, λ h. absurd (cc))

query-Quiet : {A : Type 0} (f : Db → A) → Runs Quiet (query f)
unfolding db_op
query-Quiet f = record { at = λ w. run_db_query f w.faults w refl }

bind_Quiet :
    {A B : Type 0} (m : M A) (f : A → M B)
    → Runs Quiet m
    → ((a : A) → Runs Quiet (f a))
    → Runs Quiet (m >>= f)
bind_Quiet m f = Rules.bind-Runs Quiet (λ w. (refl, refl, λ h. h)) Quiet-trans m f

lift-Quiet : {A : Type 0} (r : Result A) → Runs Quiet (lift r)
lift-Quiet r = Rules.lift-Runs Quiet (λ w. (refl, refl, λ h. h)) r

pure-Quiet : {A : Type 0} (a : A) → Runs Quiet (pure a)
pure-Quiet a = Rules.pure-Runs Quiet (λ w. (refl, refl, λ h. h)) a

module _ (env : Env) (run_id : Text) (alert : ParsedAlert) (options : Options) where
  pub read_settings-Quiet : Runs Quiet (read_settings env run_id alert options)
  unfolding read_settings
  read_settings-Quiet = bind_Quiet _ _ (query-Quiet _) λ a. bind_Quiet _ _ (lift-Quiet _) λ b.
      bind_Quiet _ _ (query-Quiet _) λ c. bind_Quiet _ _ (lift-Quiet _) λ d.
        bind_Quiet _ _ (query-Quiet _) λ e. bind_Quiet _ _ (query-Quiet _) λ f.
          bind_Quiet _ _ (query-Quiet _) λ g.
            bind_Quiet _ _ (query-Quiet _) λ h.
              bind_Quiet _ _ (query-Quiet _) λ i. bind_Quiet _ _ (lift-Quiet _) λ j. pure-Quiet _

  abbrev call_of : Settings → Call
  call_of settings = record { env = env; alert = alert; settings = settings; run_id = run_id }

  -- The body of the run raises before anything is done, or reads the settings and goes on; if it
  -- returns, the row is settled.
  pub data Pipeline (w : World) : Result (Unit {0}) → World → Type 0 where
    refused : {v : World} (e : Exn) → Quiet w v → Pipeline w (raise e) v
    went_on :
        {u v : World} {r : Result (Unit {0})} (settings : Settings)
        → (read_settings env run_id alert options w).0 ≡ ok settings
        → Quiet w u
        → Reaches env alert settings run_id u v
        → (r ≡ ok tt → Settled run_id v.db)
        → Pipeline w r v

  continue-Pipeline :
      (r : Result Settings) (w u : World)
      → (read_settings env run_id alert options w).0 ≡ r
      → Quiet w u
      → Pipeline w
          (continue r (prefilter env run_id alert options) u).0
          (continue r (prefilter env run_id alert options) u).1
  continue-Pipeline (ok settings) w u e q =
      let ends = prefilter-Ends (call_of settings) options in
      went_on settings e q (ends.runs.at u) (ends.ends u)
  continue-Pipeline (raise x) w u e q = refused x q

  pub pipeline-Pipeline :
      (w : World)
      → Pipeline w (pipeline env run_id alert options w).0 (pipeline env run_id alert options w).1
  unfolding pipeline ◌>>=◌
  pipeline-Pipeline w =
      continue-Pipeline (read_settings env run_id alert options w).0 w
        (read_settings env run_id alert options w).1 refl (read_settings-Quiet.at w)
