-- ===== src/Tasks/Recorded.antt =====
-- agent/pr_poller.py: what a check of one row leaves in the table.
use mathlib.Core.Bool.{true≢false}
use llopster.Base.{
  ℕ, ◌≡◌, refl, sym, ◌∙◌, Option, none, some, [], true, false, Text, text_eq, text_eq_refl,
  eq_of_text_eq, lit, is_empty, is_some, Bool-cases, inl, inr,
}
use llopster.Services.{Registry, ServiceConfig, get_service}
use llopster.Store.{Run, Db, get_run, update_pr_status, stamp_merge}
use llopster.Store.Laws.{get_run-modify}
use llopster.Process.World.{World, Answer, returned, pure, lift, attempt, db_op, ◌>>=◌}
use llopster.Tasks.Poller.{
  PullState, pr_status_of, or_open, get_pr_status, record_status, ask, check_number, check_pr,
}

-- What the table has after a check of a row, of whose pull request GitHub says `status`: the row's
-- own status, read as the poller reads it, is that one; a merge that the row did not know of has a
-- time; a row with that status is left alone; and so are the other rows.
pub record IsRecorded (before : Run) (status : Text) (u v : Db) : Type 0 where
  pub row : Run
  pub found : get_run before.id v ≡ some row
  pub known : or_open row.pr_status ≡ status
  pub merged :
      status ≡ lit "merged"
      → text_eq status (or_open before.pr_status) ≡ false
      → is_some row.pr_merged_at ≡ true
  pub same : text_eq status (or_open before.pr_status) ≡ true → v ≡ u
  pub others : (j : Text) → text_eq before.id j ≡ false → get_run j v ≡ get_run j u

or_open_full : (status : Text) → is_empty status ≡ false → or_open (some status) ≡ status
or_open_full status h = rw h refl

stamped_some : (now : ℕ) (before : Option ℕ) → is_some (stamp_merge true now before) ≡ true
stamped_some now none = refl
stamped_some now (some at) = refl

module _ (services : Registry) (pull : Text → ℕ → Answer PullState) (now : Text → ℕ) (run : Run)
    (w : World) (calm : w.faults ≡ []) (found : get_run run.id w.db ≡ some run) where
  abbrev polled : Text → Run → Run
  polled status r = record r {
    pr_status = some status;
    pr_merged_at = stamp_merge (text_eq status (lit "merged")) (now run.id) r.pr_merged_at;
  }

  written :
      (status : Text)
      → is_empty status ≡ false
      → text_eq status (or_open run.pr_status) ≡ false
      → IsRecorded run status w.db (update_pr_status run.id status (now run.id) w.db)
  unfolding update_pr_status
  written status full differs = record {
    row = polled status run;
    found =
        rw
          (
            get_run-modify run.id run.id (polled status) w.db (λ r. refl),
            text_eq_refl run.id,
            found,
          )
          refl;
    known = or_open_full status full;
    merged =
        λ m n. rw (m, text_eq_refl (lit "merged")) (stamped_some (now run.id) run.pr_merged_at);
    same = λ t. absurd (true≢false (sym t ∙ differs));
    others = λ j e. rw (get_run-modify run.id j (polled status) w.db (λ r. refl), e) refl;
  }

  record_status-IsRecorded :
      (status : Text)
      → is_empty status ≡ false
      → IsRecorded run status w.db (record_status services pull now run status w).1.db
  unfolding pure db_op
  record_status-IsRecorded status full =
      elim (Bool-cases (text_eq status (or_open run.pr_status))) [
        | inl e ↦ rw e (record {
          row = run;
          found = found;
          known = sym (eq_of_text_eq _ _ e);
          merged = λ m n. absurd (true≢false (sym e ∙ n));
          same = λ t. refl;
          others = λ j n. refl;
        })
        | inr e ↦ rw (e, calm) (written status full e)
      ]

  check_number-IsRecorded :
      (repo : Text) (o : Option ℕ) (number : ℕ) (state : PullState)
      → o ≡ some number
      → pull repo number ≡ returned state
      → is_empty (pr_status_of state) ≡ false
      → IsRecorded run (pr_status_of state) w.db (check_number services pull now run repo o w).1.db
  unfolding ask get_pr_status ◌>>=◌ attempt lift pure
  check_number-IsRecorded repo o number state e answered full =
      rw (e, answered) (record_status-IsRecorded (pr_status_of state) full)

  -- Where the database does not fail, a check of a row that is in the table, with a number and a
  -- registered service that has a repository, for which GitHub answers with a status that is not
  -- empty, leaves that status on the row, read as the poller reads it, a time on a merge that the
  -- row did not know of, a row that had that status as it was, and the other rows as they were.
  pub check_pr-IsRecorded :
      (service : ServiceConfig) (number : ℕ) (state : PullState)
      → is_empty run.service ≡ false
      → get_service run.service services ≡ some service
      → is_empty service.github_repo ≡ false
      → run.pr_number ≡ some number
      → pull service.github_repo number ≡ returned state
      → is_empty (pr_status_of state) ≡ false
      → IsRecorded run (pr_status_of state) w.db (check_pr services pull now run w).1.db
  unfolding check_pr
  check_pr-IsRecorded service number state named registered repo numbered answered full =
      rw (named, registered, repo)
        (check_number-IsRecorded service.github_repo run.pr_number number state numbered answered
          full)
