-- ===== src/Process/Rules.antt =====
-- Rules for the actions of the pipeline and a relation between the world before and after.
use llopster.Base.{List, [], ◌∷◌, Bool, true, false}
use llopster.Messages.{db_error}
use llopster.Store.{Db}
use llopster.Process.World.{
  World, M, Result, ok, raise, pure, lift, attempt, continue, db_op, run_db, ◌>>=◌,
}

-- Whether it returns or raises, the action leads from a world to a related one.
pub record Runs {A : Type 0} (R : World → World → Type 0) (m : M A) : Type 0 where
  pub at : (w : World) → R w (m w).1

module _ (R : World → World → Type 0) (reflexive : (w : World) → R w w) where
  module _ {A : Type 0} where
    pub pure-Runs : (a : A) → Runs R (pure a)
    unfolding pure
    pure-Runs a = record { at = λ w. reflexive w }

    pub lift-Runs : (r : Result A) → Runs R (lift r)
    unfolding lift
    lift-Runs r = record { at = λ w. reflexive w }

  module _ (transitive : (u v w : World) → R u v → R v w → R u w) where
    module _ {A B : Type 0} where
      continue-Runs :
          (r : Result A) (f : A → M B) (u w : World)
          → R u w
          → ((a : A) → Runs R (f a))
          → R u (continue r f w).1
      continue-Runs (ok a) f u w h k = transitive u w (f a w).1 h ((k a).at w)
      continue-Runs (raise e) f u w h k = h

      pub bind-Runs :
          (m : M A) (f : A → M B) → Runs R m → ((a : A) → Runs R (f a)) → Runs R (m >>= f)
      unfolding ◌>>=◌
      bind-Runs m f h k = record { at = λ w. continue-Runs (m w).0 f w (m w).1 (h.at w) k }

module _ {A : Type 0} (R : World → World → Type 0) where
  pub attempt-Runs : (m : M A) → Runs R m → Runs R (attempt m)
  unfolding attempt
  attempt-Runs m h = record { at = λ w. h.at w }

-- What holds of a failed use of the database and of the rest behind a successful one.
module _ {A B : Type 0} (f : Db → A × Db) (k : A → M B) (Q : Result B × World → Type 0) where
  split_faults :
      (faults : List Bool) (w : World)
      → ((fs : List Bool) → Q (raise db_error, record w { faults = fs }))
      → ((fs : List Bool) → Q (k (f w.db).0 (record w { db = (f w.db).1; faults = fs })))
      → Q (continue (run_db faults f w).0 k (run_db faults f w).1)
  split_faults [] w failed rest = rest w.faults
  split_faults (true ∷ faults) w failed rest = failed faults
  split_faults (false ∷ faults) w failed rest = rest faults

  pub db_op_bind :
      (w : World)
      → ((fs : List Bool) → Q (raise db_error, record w { faults = fs }))
      → ((fs : List Bool) → Q (k (f w.db).0 (record w { db = (f w.db).1; faults = fs })))
      → Q ((db_op f >>= k) w)
  unfolding ◌>>=◌ db_op
  db_op_bind w failed rest = split_faults w.faults w failed rest
