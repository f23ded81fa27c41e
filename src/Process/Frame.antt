-- ===== src/Process/Frame.antt =====
-- agent/processor.py: what `Reaches` lets a run change in the database and ask of GitHub.
use mathlib.Core.Path.{subst}
use llopster.Base.{
  ◌≡◌, refl, sym, ap, ◌∙◌, List, [], ◌∷◌, ◌++◌, Bool, true, false, map, Text, text_eq, Has, here,
  there, ◌⊎◌, inl, inr,
}
use llopster.Alerts.{ParsedAlert}
use llopster.Store.{Run, get_run, modify, set_setting}
use llopster.Store.Laws.{get_run-modify, runs-modify}
use llopster.Process.World.{Env, World, Effect, run_db}
use llopster.Process.Breaker.{set_processing_mode}
use llopster.Process.Post.{Settings}
use llopster.Process.Reach.{
  Reaches, stay, via, used, changed, tripped, called, Permitted, KeepsFixed, fixed_columns,
}

module _ (run_id : Text) where
  -- What holds between the worlds before and after.
  pub record Framed (u w : World) : Type 0 where
    pub others : (j : Text) → text_eq run_id j ≡ false → get_run j w.db ≡ get_run j u.db
    pub columns : map fixed_columns w.db.runs ≡ map fixed_columns u.db.runs

  KeepsFixed-id : (f : Run → Run) → KeepsFixed f → (run : Run) → (f run).id ≡ run.id
  KeepsFixed-id f k run = ap (λ c. c.0) (k run)

  pub run_db-Framed :
      (f : Run → Run)
      → KeepsFixed f
      → (faults : List Bool) (w : World)
      → Framed w (run_db faults (λ db. (tt, modify run_id f db)) w).1
  run_db-Framed f k [] w = record {
    others = λ j e. rw (get_run-modify run_id j f w.db (KeepsFixed-id f k), e);
    columns = runs-modify fixed_columns run_id f w.db k;
  }
  run_db-Framed f k (true ∷ faults) w = record { others = λ j e. refl; columns = refl }
  run_db-Framed f k (false ∷ faults) w = record {
    others = λ j e. rw (get_run-modify run_id j f w.db (KeepsFixed-id f k), e);
    columns = runs-modify fixed_columns run_id f w.db k;
  }

Has-append_single : {x y : Effect} (xs : List Effect) → Has x (xs ++ (y ∷ [])) → Has x xs ⊎ (x ≡ y)
Has-append_single [] (here e) = inr e
Has-append_single [] (there m) = elim m [ ]
Has-append_single (z ∷ xs) (here e) = inl (here e)
Has-append_single (z ∷ xs) (there m) = elim (Has-append_single xs m) [
  | inl h ↦ inl (there h)
  | inr e ↦ inr e
]

module _ (env : Env) (alert : ParsedAlert) (run_id : Text) where
  module _ (settings : Settings) where
    pub Framed-of_Reaches :
        {u w : World} → Reaches env alert settings run_id u w → Framed run_id u w
    unfolding set_processing_mode set_setting get_run
    Framed-of_Reaches (stay w) = record { others = λ j e. refl; columns = refl }
    Framed-of_Reaches (via u v w a b) =
        let fa = Framed-of_Reaches a in
        let fb = Framed-of_Reaches b in
        record { others = λ j e. fb.others j e ∙ fa.others j e; columns = fb.columns ∙ fa.columns }
    Framed-of_Reaches (used w b faults e) = record { others = λ j e. refl; columns = refl }
    Framed-of_Reaches (changed w f k v) = record {
      others = λ j e. rw (get_run-modify run_id j f w.db (KeepsFixed-id run_id f k), e);
      columns = runs-modify fixed_columns run_id f w.db k;
    }
    Framed-of_Reaches (tripped w) = record { others = λ j e. refl; columns = refl }
    Framed-of_Reaches (called w e p) = record { others = λ j e. refl; columns = refl }

    -- A call behind the first ones meets its condition.
    pub Calls_of_Reaches :
        {u w : World} (e : Effect)
        → Reaches env alert settings run_id u w
        → Has e w.effects
        → Has e u.effects ⊎ Permitted env alert settings e
    Calls_of_Reaches e (stay w) h = inl h
    Calls_of_Reaches e (via u v w a b) h = elim (Calls_of_Reaches e b h) [
      | inl h' ↦ Calls_of_Reaches e a h'
      | inr o ↦ inr o
    ]
    Calls_of_Reaches e (used w b faults f) h = inl h
    Calls_of_Reaches e (changed w f k v) h = inl h
    Calls_of_Reaches e (tripped w) h = inl h
    Calls_of_Reaches e (called w other p) h = elim (Has-append_single w.effects h) [
      | inl h' ↦ inl h'
      | inr q ↦ inr (subst (Permitted env alert settings) (sym q) p)
    ]
