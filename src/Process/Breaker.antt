-- ===== src/Process/Breaker.antt =====
-- agent/cost_breaker.py and agent/processing_mode.py.
use llopster.Base.{
  ℕ, ◌+◌, Option, none, some, List, [], ◌∷◌, if◌then◌else◌, is_empty, leb, filter, map, Text, lit,
  text_eq, strip,
}
use llopster.Base.Int.{ℤ, pos, ltb_int, parse_int}
use llopster.Cost.{compute_cost_usd}
use llopster.Messages.{Message, runs_ceiling, usd_ceiling}
use llopster.Store.{Db, Run, get_setting, set_setting, count_runs_since}
use llopster.Process.World.{
  Env, M, Result, ok, raise, pure, lift, attempt, query, ◌>>=◌, minus_minutes,
}

abbrev pub processing_mode_key : Text
processing_mode_key = lit "processing_mode"

pub data Mode : Type 0 where
  autopilot manual : Mode

abbrev mode_text : Mode → Text
mode_text autopilot = lit "autopilot"
mode_text manual = lit "manual"

-- Anything that is no known mode means autopilot.
abbrev mode_of : Option Text → Mode
mode_of none = autopilot
mode_of (some stored) = if text_eq stored (lit "manual") then manual else autopilot

unfoldable pub get_processing_mode : Db → Mode
unfolding get_setting
get_processing_mode db = mode_of (get_setting processing_mode_key db)

unfoldable pub set_processing_mode : Mode → Db → Db
unfolding set_setting
set_processing_mode mode = set_setting processing_mode_key (mode_text mode)

abbrev or_default : Option ℤ → ℤ → ℤ
or_default none default = default
or_default (some n) default = n

-- A stored value that is blank or no number falls back to the configuration.
unfoldable pub resolve_ceiling : (Text → Option ℤ) → Option Text → ℤ → ℤ
resolve_ceiling parse none default = default
resolve_ceiling parse (some raw) default =
    if is_empty (strip raw) then default else or_default (parse raw) default

-- The cost of a run's answer, 0 for a run without one.
abbrev run_cost : Run → ℕ
run_cost run = elim run.llm [
  | none ↦ 0
  | some columns ↦
      compute_cost_usd columns.proposal.input_tokens columns.proposal.output_tokens
        columns.proposal.cache_read_tokens columns.proposal.cache_creation_tokens
        (some columns.proposal.model)
]

abbrev sum : List ℕ → ℕ
sum [] = 0
sum (n ∷ ns) = n + sum ns

-- `synthesis_token_rows_since`, with the sum over its rows
unfoldable pub spend_since : ℕ → Db → ℕ
unfolding compute_cost_usd
spend_since since db = sum (map run_cost (filter (λ run. leb since run.created_at) db.runs))

module _ (env : Env) where
  -- The reason to trip, if there is one.
  unfoldable pub usd_check : ℤ → M (Option Message)
  unfolding spend_since minus_minutes
  usd_check max_usd =
      if ltb_int (pos 0) max_usd
      then (do
        since ← lift (minus_minutes env.now_breaker (pos 1440))
        spend ← query (spend_since since)
        pure (if ltb_int (pos spend) max_usd then none else some (usd_ceiling spend max_usd)))
      else pure none

  unfoldable pub runs_check : ℤ → ℤ → M (Option Message)
  unfolding usd_check count_runs_since
  runs_check max_runs max_usd =
      if ltb_int (pos 0) max_runs
      then (do
        since ← lift (minus_minutes env.now_breaker (pos 60))
        count ← query (count_runs_since since)
        if ltb_int (pos count) max_runs
            then usd_check max_usd
            else pure (some (runs_ceiling count max_runs)))
      else usd_check max_usd

  unfoldable pub ceilings_check : M (Option Message)
  unfolding runs_check resolve_ceiling get_setting
  ceilings_check = do
    raw_runs ← query (get_setting (lit "max_runs_per_hour"))
    raw_usd ← query (get_setting (lit "max_usd_per_day"))
    runs_check (resolve_ceiling parse_int raw_runs env.config.max_runs_per_hour)
        (resolve_ceiling env.parse_usd raw_usd env.config.max_usd_per_day)

  abbrev tripped : Result (Option Message) → Option Message
  tripped (ok reason) = reason
  tripped (raise e) = none

  -- Any exception means: do not trip.
  unfoldable pub check_cost_breaker : M (Option Message)
  unfolding ceilings_check
  check_cost_breaker = do outcome ← attempt ceilings_check; pure (tripped outcome)
