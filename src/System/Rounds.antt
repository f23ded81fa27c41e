-- ===== src/System/Rounds.antt =====
-- The rounds of the background tasks are made of the steps of the system.
use llopster.Base.{
  ℕ, refl, Option, none, some, List, [], ◌∷◌, Bool, true, false, Text, if◌then◌else◌, is_empty,
  text_eq, Bool-cases, inl, inr,
}
use llopster.Services.{Registry, ServiceConfig}
use llopster.Store.{Run, Db, update_pr_status}
use llopster.Store.Dedup.{list_open_prs}
use llopster.Process.World.{
  World, M, Result, ok, raise, Answer, pure, lift, attempt, as_result, db_op, run_db, ◌>>=◌,
  continue,
}
use llopster.Process.Rules.{db_op_bind, Runs, bind-Runs, pure-Runs, lift-Runs}
use llopster.Base.Int.{ℤ, pos, ltb_int}
use llopster.Tasks.Pruner.{prune_once, read_retention_days, delete_older}
use llopster.Tasks.Poller.{
  PullState, pr_status_of, get_pr_status, record_status, ask, check_number, check_service, check_pr,
  check_prs, poll_round, or_open,
}
use llopster.System.{
  at, configured, pruned, read_open_prs, passed, polled, Steps, none_yet, one, then_steps,
}

-- One pass over a row of the poller's list.
module _ (services : Registry) (pull : Text → ℕ → Answer PullState) (now : Text → ℕ) where
  abbrev Passes : {A : Type 0} → Run → List Run → M A → Type 0
  Passes run rest m = (w : World) → Steps (at w (run ∷ rest)) (at (m w).1 rest)

  module _ (run : Run) (rest : List Run) where
    pass : (w : World) → Steps (at w (run ∷ rest)) (at w rest)
    pass w = one (passed (at w (run ∷ rest)) run rest refl)

    written :
        (status : Text) (faults : List Bool) (w : World)
        → Steps (at w (run ∷ rest)) (
            at
              (run_db faults (λ db. (tt, update_pr_status run.id status (now run.id) db)) w).1
              rest)
    written status [] w = one (polled _ run rest status (now run.id) refl)
    written status (true ∷ faults) w = one (passed _ run rest refl)
    written status (false ∷ faults) w = one (polled _ run rest status (now run.id) refl)

    record_status_steps :
        (status : Text) → Passes run rest (record_status services pull now run status)
    unfolding pure db_op
    record_status_steps status w = elim (Bool-cases (text_eq status (or_open run.pr_status))) [
      | inl e ↦ rw e (pass w)
      | inr e ↦ rw e (written status w.faults w)
    ]

    asked :
        (r : Result PullState)
        → Passes run rest (
            (lift r >>= λ state. pure (pr_status_of state)) >>= record_status services pull now run)
    unfolding ◌>>=◌ lift pure
    asked (ok state) w = record_status_steps (pr_status_of state) w
    asked (raise x) w = pass w

    ask_steps : (repo : Text) (number : ℕ) → Passes run rest (ask services pull now run repo number)
    unfolding ask get_pr_status ◌>>=◌ lift pure
    ask_steps repo number w = asked (as_result (pull repo number)) w

    check_number_steps :
        (repo : Text) (o : Option ℕ) → Passes run rest (check_number services pull now run repo o)
    unfolding pure ◌>>=◌ attempt
    check_number_steps repo none w = pass w
    check_number_steps repo (some number) w = ask_steps repo number w

    check_service_steps :
        (o : Option ServiceConfig) → Passes run rest (check_service services pull now run o)
    unfolding pure
    check_service_steps none w = pass w
    check_service_steps (some service) w = elim (Bool-cases (is_empty service.github_repo)) [
      | inl e ↦ rw e (pass w)
      | inr e ↦ rw e (check_number_steps service.github_repo run.pr_number w)
    ]

    check_pr_steps : Passes run rest (check_pr services pull now run)
    unfolding check_pr
    check_pr_steps w = check_service_steps _ w

  -- The rest of the list is dropped with the round.
  drain :
      (db : Db) (runs : List Run)
      → Steps (record { db = db; listed = runs }) (record { db = db; listed = [] })
  drain db [] = none_yet _
  drain db (run ∷ runs) =
      then_steps _ (record { db = db; listed = runs }) _ (one (passed _ run runs refl))
        (drain db runs)

  drained :
      {A : Type 0} (r : Result A) (m : M (Unit {0})) (runs : List Run) (w : World)
      → ((v : World) → Steps (at v runs) (at (m v).1 []))
      → Steps (at w runs) (at (continue r (λ _. m) w).1 [])
  drained (ok a) m runs w h = h w
  drained (raise x) m runs w h = drain w.db runs

  check_prs-Steps :
      (runs : List Run) (w : World)
      → Steps (at w runs) (at (check_prs services pull now runs w).1 [])
  unfolding check_prs ◌>>=◌ pure
  check_prs-Steps [] w = none_yet _
  check_prs-Steps (run ∷ runs) w =
      then_steps _ (at (check_pr services pull now run w).1 runs) _ (check_pr_steps run runs w) (
        drained (check_pr services pull now run w).0 (check_prs services pull now runs) runs _
          (λ v. check_prs-Steps runs v))

  -- A round of the poller is a sequence of steps of the system, at whose end no row is left to go
  -- through.
  pub poll_round-Steps :
      (w : World) (listed : List Run)
      → Steps (at w listed) (at (poll_round services pull now w).1 [])
  unfolding poll_round
  poll_round-Steps w listed =
      db_op_bind _ _ (λ p. Steps (at w listed) (at p.1 [])) w (λ fs. drain w.db listed)
        (λ fs.
          then_steps _ (at w (list_open_prs w.db)) _ (one (read_open_prs _))
            (check_prs-Steps (list_open_prs w.db) (record w { faults = fs })))

module _ (listed : List Run) where
  abbrev R : World → World → Type 0
  R u w = Steps (at u listed) (at w listed)

  abbrev Does : {A : Type 0} → M A → Type 0
  Does m = Runs (λ u w. Steps (at u listed) (at w listed)) m

  Does-bind :
      {A B : Type 0} (m : M A) (f : A → M B) → Does m → ((a : A) → Does (f a)) → Does (m >>= f)
  Does-bind m f h k =
      bind-Runs R (λ w. none_yet _) (λ u v w a b. then_steps _ (at v listed) _ a b) m f h k

  db_op-faults :
      {A : Type 0} (f : Db → A × Db) (faults : List Bool) (w : World)
      → ((v : World) → R v (record v { db = (f v.db).1 }))
      → R w (run_db faults f w).1
  db_op-faults f [] w h = h w
  db_op-faults f (true ∷ faults) w h = none_yet _
  db_op-faults f (false ∷ faults) w h = h w

  db_op-Does :
      {A : Type 0} (f : Db → A × Db)
      → ((v : World) → R v (record v { db = (f v.db).1 }))
      → Does (db_op f)
  unfolding db_op
  db_op-Does f h = record { at = λ w. db_op-faults f w.faults w h }

  -- So is a round of the pruner.
  pub prune_once-Does :
      (retention_days : ℤ) (now : ℕ) (now_text : Text)
      → Does (prune_once retention_days now now_text)
  unfolding prune_once read_retention_days
  prune_once-Does retention_days now now_text =
      Does-bind _ _
        (Does-bind _ _ (db_op-Does _ (λ v. none_yet _)) (λ raw. pure-Runs R (λ w. none_yet _) _))
        λ days. Does-bind _ _ (deleting (ltb_int (pos 0) days) days) λ n.
          Does-bind _ _ (db_op-Does _ (λ v. one (configured _ _ _)))
            λ _. pure-Runs R (λ w. none_yet _) _
    where
      deleting :
          (b : Bool) (days : ℤ)
          → Does (if b then delete_older retention_days now now_text days else pure 0)
      deleting true days =
          Does-bind _ _ (lift-Runs R (λ w. none_yet _) _)
            λ cutoff. db_op-Does _ (λ v. one (pruned _ cutoff))
      deleting false days = pure-Runs R (λ w. none_yet _) _
