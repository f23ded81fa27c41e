-- ===== src/Tasks/Poller.antt =====
-- agent/pr_poller.py, one round of the loop of `pr_poller`, and `get_pr_status` of
-- integrations/github_client.py. GitHub's answer on a pull request (its field "merged", and its field
-- "state") and the times of the writes are parameters. The pauses are left out.
use llopster.Base.{
  ℕ, Option, none, some, List, [], ◌∷◌, Bool, if◌then◌else◌, is_empty, Text, lit, text_eq,
}
use llopster.Services.{Registry, ServiceConfig, get_service}
use llopster.Store.{Run, update_pr_status}
use llopster.Store.Dedup.{list_open_prs}
use llopster.Process.World.{M, Answer, pure, lift, attempt, query, write, as_result, ◌>>=◌, ◌>>◌}

pub record PullState : Type 0 where
  pub merged : Bool
  pub state : Option Text

abbrev pub pr_status_of : PullState → Text
pr_status_of pull =
    if pull.merged
    then lit "merged"
    else elim pull.state [ none ↦ lit "unknown" | some state ↦ state ]

-- `run.pr_status or "open"`
abbrev pub or_open : Option Text → Text
or_open none = lit "open"
or_open (some status) = if is_empty status then lit "open" else status

module _ (services : Registry) (pull : Text → ℕ → Answer PullState) (now : Text → ℕ) where
  unfoldable pub get_pr_status : Text → ℕ → M Text
  get_pr_status repo number = do
    state ← lift (as_result (pull repo number))
    pure (pr_status_of state)

  abbrev pub record_status : Run → Text → M (Unit {0})
  record_status run status =
      if text_eq status (or_open run.pr_status)
      then pure tt
      else write (update_pr_status run.id status (now run.id))

  -- The body of the inner `try`.
  unfoldable pub ask : Run → Text → ℕ → M (Unit {0})
  unfolding get_pr_status update_pr_status
  ask run repo number = do status ← get_pr_status repo number; record_status run status

  abbrev pub check_number : Run → Text → Option ℕ → M (Unit {0})
  check_number run repo none = pure tt
  check_number run repo (some number) = attempt (ask run repo number) >> pure tt

  abbrev pub check_service : Run → Option ServiceConfig → M (Unit {0})
  check_service run none = pure tt
  check_service run (some service) =
      if is_empty service.github_repo
      then pure tt
      else check_number run service.github_repo run.pr_number

  unfoldable pub check_pr : Run → M (Unit {0})
  unfolding ask get_service
  check_pr run =
      check_service run (if is_empty run.service then none else get_service run.service services)

  unfoldable pub check_prs : List Run → M (Unit {0})
  unfolding check_pr
  check_prs [] = pure tt
  check_prs (run ∷ runs) = check_pr run >> check_prs runs

  unfoldable pub poll_round : M (Unit {0})
  unfolding check_prs list_open_prs
  poll_round = do runs ← query list_open_prs; check_prs runs
