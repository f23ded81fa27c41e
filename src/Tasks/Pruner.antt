-- ===== src/Tasks/Pruner.antt =====
-- agent/run_pruner.py: `_read_retention_days` and `prune_once`. The configuration, the clock and the
-- text of the time are parameters.
use llopster.Base.{ℕ, ◌*◌, Option, none, some, if◌then◌else◌, Text, lit}
use llopster.Base.Int.{ℤ, pos, negsuc, ltb_int, parse_int}
use llopster.Store.{get_setting, set_setting, delete_runs_older_than}
use llopster.Process.World.{M, pure, lift, db_op, query, write, minus_minutes, ◌>>=◌, ◌>>◌}

-- A value that is no number falls back to the configuration.
abbrev pub retention_days_of : Option Text → ℤ → ℤ
retention_days_of none default = default
retention_days_of (some raw) default = elim (parse_int raw) [ none ↦ default | some days ↦ days ]

-- In minutes, for a number of days that is above 0.
abbrev minutes_of : ℤ → ℤ
minutes_of (pos days) = pos (days * 1440)
minutes_of (negsuc n) = negsuc n

module _ (retention_days : ℤ) (now : ℕ) (now_text : Text) where
  unfoldable pub read_retention_days : M ℤ
  unfolding get_setting parse_int
  read_retention_days = do
    raw ← query (get_setting (lit "run_retention_days"))
    pure (retention_days_of raw retention_days)

  abbrev pub delete_older : ℤ → M ℕ
  delete_older days = do
    cutoff ← lift (minus_minutes now (minutes_of days))
    db_op (λ db. ((delete_runs_older_than cutoff db).1, (delete_runs_older_than cutoff db).0))

  unfoldable pub prune_once : M (ℤ × ℕ)
  unfolding read_retention_days minus_minutes delete_runs_older_than set_setting
  prune_once = do
    days ← read_retention_days
    deleted ← if ltb_int (pos 0) days then delete_older days else pure 0
    write (set_setting (lit "last_pruned_at") now_text)
    pure (days, deleted)
