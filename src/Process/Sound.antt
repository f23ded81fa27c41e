-- ===== src/Process/Sound.antt =====
-- agent/processor.py: the rules of `Reaches` for the actions of the pipeline.
pub mod Post
pub mod Stages
pub mod Gates
use mathlib.Core.Path.{subst}
use mathlib.Core.Option as Opt
use llopster.Base.{
  some_inj, ◌∙◌, text_eq_refl, ℕ, ◌≡◌, refl, sym, ap, Option, none, some, List, [], ◌∷◌, Bool, true,
  false, if◌then◌else◌, Text, Bool-cases, inl, inr,
}
use llopster.Store.Laws.{get_run-modify}
use llopster.Base.Int.{ℤ, pos, ltb_int}
use llopster.Alerts.{ParsedAlert}
use llopster.Messages.{
  Status, Message, Exn, open_error, raised, value_error, overflow_error, attribute_error, db_error,
  notifications_disabled, done,
}
use llopster.Store.{
  get_run, Run, Db, PatchProposal, Investigation, record_notification, record_pr, modify,
  set_status, update_status,
}
use llopster.Process.World.{
  Env, World, M, Result, ok, raise, Effect, Answer, pure, lift, db_op, run_db, attempt, emit,
  notified, continue, query, write, ◌>>=◌, ◌>>◌,
}
use llopster.Process.Rules
use llopster.Process.Rules.{Runs}
use llopster.Process.Post.{
  Settings, notify_and_finish, notify_with, without_pr, verification_failed, handle_pr_error,
  after_record, after_open, call_open_pr, open_with, open_phase,
}
use llopster.Process.Breaker.{set_processing_mode, manual}
use llopster.Services.{ServiceConfig, get_service}
use llopster.Github.Client.{PullRequest, OpenError, Server}
use llopster.Github.Diff.{proposal_has_patch}
use llopster.Store.Stages.{StageWrite}
use llopster.Process.Reach.{
  Call, Settled, is_settled, Answered, opens, KeepsFixed, Permitted, Reaches, stay, via, used,
  changed, tripped, called, notifies,
}

map-settled :
    (f : Run → Run) (o : Option Run) {run : Run}
    → ((r : Run) → is_settled (f r).processing_status ≡ true)
    → Opt.map f o ≡ some run
    → is_settled run.processing_status ≡ true
map-settled f none s h = absurd (cc)
map-settled f (some r) s h = subst (λ t. is_settled t.processing_status ≡ true) (some_inj h) (s r)

pub modify-Settled :
    (run_id : Text) (f : Run → Run)
    → KeepsFixed f
    → ((run : Run) → is_settled (f run).processing_status ≡ true)
    → (db : Db) → Settled run_id (modify run_id f db)
modify-Settled run_id f k s db run e = map-settled f (get_run run_id db) s (
    sym (rw (get_run-modify run_id run_id f db (λ r. ap (λ c. c.0) (k r)), text_eq_refl run_id))
    ∙ e)

module _ (c : Call) where
  open c use {env, alert, settings, run_id}

  abbrev R : World → World → Type 0
  R = Reaches env alert settings run_id

  abbrev pub Ok : {A : Type 0} → M A → Type 0
  Ok m = Runs (Reaches env alert settings run_id) m

  -- An action behind which the run ends: if it returns, the row is settled.
  pub record Ends (m : M (Unit {0})) : Type 0 where
    pub runs : Runs (Reaches env alert settings run_id) m
    pub ends : (w : World) → (m w).0 ≡ ok tt → Settled run_id (m w).1.db

  module _ {A : Type 0} where
    pub pure-Ok : (a : A) → Ok (pure a)
    pure-Ok a = Rules.pure-Runs R stay a

    pub lift-Ok : (r : Result A) → Ok (lift r)
    lift-Ok r = Rules.lift-Runs R stay r

    pub attempt-Ok : (m : M A) → Ok m → Ok (attempt m)
    attempt-Ok m h = Rules.attempt-Runs R m h

    used_db :
        (faults : List Bool) (f : Db → A × Db) (w : World)
        → w.faults ≡ faults
        → ((v : World) → R v (record v { db = (f v.db).1 }))
        → R w (run_db faults f w).1
    used_db [] f w e h = h w
    used_db (true ∷ faults) f w e h = used w true faults e
    used_db (false ∷ faults) f w e h =
        let w' = record w { db = (f w.db).1 } in
        via w w' (record w' { faults = faults }) (h w) (used w' false faults e)

    pub query-Ok : (f : Db → A) → Ok (query f)
    unfolding db_op
    query-Ok f = record { at = λ w. used_db w.faults (λ db. (f db, db)) w refl (λ v. stay v) }

  pub modify-Ok :
      (f : Run → Run)
      → KeepsFixed f
      → StageWrite run_id (modify run_id f)
      → Ok (write (modify run_id f))
  unfolding db_op
  modify-Ok f h k = record {
    at = λ w. used_db w.faults (λ db. (tt, modify run_id f db)) w refl (λ v. changed v f h k);
  }

  pub trip_Ok : Ok (write (set_processing_mode manual))
  unfolding db_op
  trip_Ok = record {
    at = λ w. used_db w.faults (λ db. (tt, set_processing_mode manual db)) w refl (λ v. tripped v);
  }

  pub emit-Ok : (e : Effect) → Permitted env alert settings e → Ok (emit e)
  unfolding emit
  emit-Ok e h = record { at = λ w. called w e h }

  module _ {A B : Type 0} where
    pub bind_Ok : (m : M A) (f : A → M B) → Ok m → ((a : A) → Ok (f a)) → Ok (m >>= f)
    bind_Ok m f h k = Rules.bind-Runs R stay via m f h k

  module _ {A : Type 0} where
    continue-ends :
        (r : Result A) (f : A → M (Unit {0})) (w : World)
        → ((a : A) → Ends (f a))
        → (continue r f w).0 ≡ ok tt
        → Settled run_id (continue r f w).1.db
    continue-ends (ok a) f w k e = (k a).ends w e
    continue-ends (raise x) f w k e = absurd (cc)

    pub bind : (m : M A) (f : A → M (Unit {0})) → Ok m → ((a : A) → Ends (f a)) → Ends (m >>= f)
    unfolding ◌>>=◌
    bind m f h k = record {
      runs = bind_Ok m f h (λ a. (k a).runs);
      ends = λ w e. continue-ends (m w).0 f (m w).1 k e;
    }

    -- What follows a value at hand may use where it comes from.
    pub lift_bind :
        (r : Result A) (f : A → M (Unit {0}))
        → ((a : A) → r ≡ ok a → Ends (f a))
        → Ends (lift r >>= f)
    unfolding ◌>>=◌
    lift_bind (ok a) f k = record {
      runs = record { at = λ w. (k a refl).runs.at w };
      ends = λ w e. (k a refl).ends w e;
    }
    lift_bind (raise x) f k = record {
      runs = record { at = λ w. stay w };
      ends = λ w e. absurd (cc);
    }

    pub if_Ok :
        (b : Bool) (m n : M A) → (b ≡ true → Ok m) → (b ≡ false → Ok n) → Ok (if b then m else n)
    if_Ok true m n hm hn = hm refl
    if_Ok false m n hm hn = hn refl

  pub if_Ends :
      (b : Bool) (m n : M (Unit {0}))
      → (b ≡ true → Ends m)
      → (b ≡ false → Ends n)
      → Ends (if b then m else n)
  if_Ends true m n hm hn = hm refl
  if_Ends false m n hm hn = hn refl

  settle_db :
      (f : Run → Run)
      → KeepsFixed f
      → ((run : Run) → is_settled (f run).processing_status ≡ true)
      → (faults : List Bool) (w : World)
      → (run_db faults (λ db. (tt, modify run_id f db)) w).0 ≡ ok tt
      → Settled run_id (run_db faults (λ db. (tt, modify run_id f db)) w).1.db
  settle_db f k s [] w e = modify-Settled run_id f k s w.db
  settle_db f k s (true ∷ faults) w e = absurd (cc)
  settle_db f k s (false ∷ faults) w e = modify-Settled run_id f k s w.db

  -- The last write of a run.
  pub settle :
      (f : Run → Run)
      → KeepsFixed f
      → StageWrite run_id (modify run_id f)
      → ((run : Run) → is_settled (f run).processing_status ≡ true)
      → Ends (write (modify run_id f))
  unfolding db_op
  settle f k v s = record { runs = modify-Ok f k v; ends = λ w e. settle_db f k s w.faults w e }
