-- ===== src/Store/Merges.antt =====
-- db/repository.py: `update_pr_status` over the polls of a run's pull request.
use mathlib.Core.Option as Opt
use llopster.Base.{
  ℕ, ◌≡◌, refl, ap, ◌∙◌, Option, none, some, List, [], ◌∷◌, Bool, true, false, if◌then◌else◌, Text,
  lit, text_eq, text_eq_refl,
}
use llopster.Store.{Run, Db, get_run, update_pr_status, stamp_merge}
use llopster.Store.Laws.{get_run-modify}

-- One poll after the other, each with the state seen and the time.
unfoldable pub polls : Text → List (Text × ℕ) → Db → Db
polls id [] db = db
polls id ((pr_status, now) ∷ more) db = polls id more (update_pr_status id pr_status now db)

unfoldable pub first_merge : List (Text × ℕ) → Option ℕ
first_merge [] = none
first_merge ((pr_status, now) ∷ more) =
    if text_eq pr_status (lit "merged") then some now else first_merge more

abbrev pub or_else : Option ℕ → Option ℕ → Option ℕ
or_else none b = b
or_else (some a) b = some a

stamp_first :
    (merged : Bool) (now : ℕ) (at rest : Option ℕ)
    → or_else (stamp_merge merged now at) rest ≡ or_else at (if merged then some now else rest)
stamp_first true now none rest = refl
stamp_first false now none rest = refl
stamp_first merged now (some at) rest = refl

get_run-update_pr_status :
    (id pr_status : Text) (now : ℕ) (run : Run) (db : Db)
    → get_run id db ≡ some run
    → get_run id (update_pr_status id pr_status now db)
      ≡ some (record run {
        pr_status = some pr_status;
        pr_merged_at = stamp_merge (text_eq pr_status (lit "merged")) now run.pr_merged_at;
      })
unfolding update_pr_status
get_run-update_pr_status id pr_status now run db h =
    get_run-modify id id _ db (λ r. refl) ∙ rw (text_eq_refl id, h)

or_else-none : (at : Option ℕ) → at ≡ or_else at none
or_else-none none = refl
or_else-none (some a) = refl

-- After any polls of the pull request of a run, its merge time is the one that it had before, or
-- else the time of the first poll that saw the merge, and none if no poll saw it.
pr_merged_at-polls :
    (id : Text) (updates : List (Text × ℕ)) (db : Db) (run : Run)
    → get_run id db ≡ some run
    → Opt.map (λ r. r.pr_merged_at) (get_run id (polls id updates db))
      ≡ some (or_else run.pr_merged_at (first_merge updates))
unfolding polls first_merge
pr_merged_at-polls id [] db run h = rw (h, ← or_else-none run.pr_merged_at)
pr_merged_at-polls id ((pr_status, now) ∷ more) db run h =
    pr_merged_at-polls id more _ _ (get_run-update_pr_status id pr_status now run db h)
    ∙ ap some
        (stamp_first (text_eq pr_status (lit "merged")) now run.pr_merged_at (first_merge more))
