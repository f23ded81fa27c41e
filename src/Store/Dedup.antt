-- ===== src/Store/Dedup.antt =====
-- agent/dedup.py and the reads of db/repository.py: queries over the runs. Among rows that are
-- equally new SQL may return any; here it is the first.
use llopster.Base.{
  ℕ, Option, none, some, List, [], ◌∷◌, Bool, true, false, ◌&&◌, ◌||◌, not, if◌then◌else◌, leb,
  filter, is_some, Text, lit, text_eq,
}
use llopster.Messages.{Status, pending, queued, collecting, generating, posting, done, failed}
use llopster.Store.{Run, Db}

-- `_OPEN_STATUSES`
abbrev pub is_open_status : Status → Bool
is_open_status queued = true
is_open_status pending = true
is_open_status collecting = true
is_open_status generating = true
is_open_status posting = true
is_open_status _ = false

-- `_UNPRODUCTIVE_STATUSES`
abbrev pub is_unproductive : Status → Bool
is_unproductive done = true
is_unproductive failed = true
is_unproductive _ = false

-- `.order_by(desc(column)).limit(1)`
unfoldable pub newest : (Run → ℕ) → List Run → Option Run
newest column [] = none
newest column (run ∷ runs) = elim (newest column runs) [
  | none ↦ some run
  | some other ↦ if leb (column other) (column run) then some run else some other
]

-- `Run.id != exclude_run_id`, if there is one to exclude
abbrev pub not_excluded : Option Text → Run → Bool
not_excluded none run = true
not_excluded (some id) run = not (text_eq run.id id)

abbrev pub is_open_for : Text → Run → Bool
is_open_for key run = text_eq run.dedup_key key && is_open_status run.processing_status

unfoldable pub find_open_run_by_dedup_key : Text → Db → Option Run
unfolding newest
find_open_run_by_dedup_key key db =
    newest (λ run. run.created_at) (filter (is_open_for key) db.runs)

abbrev pub is_closed : Text → Bool
is_closed status = text_eq status (lit "closed") || text_eq status (lit "merged")

-- `pr_status IS NULL OR pr_status NOT IN ('closed', 'merged')`
abbrev pub is_pending_pr : Option Text → Bool
is_pending_pr none = true
is_pending_pr (some status) = not (is_closed status)

-- An open pull request for the key.
unfoldable pub is_blocking : Text → Option Text → Run → Bool
is_blocking key exclude run =
    text_eq run.dedup_key key
    && run.pr_opened
    && is_some run.pr_url
    && is_pending_pr run.pr_status
    && not_excluded exclude run

unfoldable pub find_blocking_open_pr_run : Text → Option Text → Db → Option Run
unfolding newest is_blocking
find_blocking_open_pr_run key exclude db =
    newest (λ run. run.created_at) (filter (is_blocking key exclude) db.runs)

unfoldable pub is_unproductive_run : Text → ℕ → Option Text → Run → Bool
is_unproductive_run key since exclude run =
    text_eq run.dedup_key key
    && not run.pr_opened
    && is_unproductive run.processing_status
    && leb since run.created_at
    && not_excluded exclude run

unfoldable pub find_recent_unproductive_run : Text → ℕ → Option Text → Db → Option Run
unfolding newest is_unproductive_run
find_recent_unproductive_run key since exclude db =
    newest (λ run. run.created_at) (filter (is_unproductive_run key since exclude) db.runs)

abbrev pub merged_time : Run → ℕ
merged_time run = elim run.pr_merged_at [ none ↦ 0 | some at ↦ at ]

-- `pr_status = 'merged'`, which does not hold of NULL
abbrev pub is_merged : Option Text → Bool
is_merged none = false
is_merged (some status) = text_eq status (lit "merged")

unfoldable pub is_merged_run : Text → Option Text → Run → Bool
is_merged_run key exclude run =
    text_eq run.dedup_key key
    && is_merged run.pr_status
    && is_some run.pr_merged_at
    && not_excluded exclude run

unfoldable pub find_previous_merged_attempt : Text → Option Text → Db → Option Run
unfolding newest is_merged_run
find_previous_merged_attempt key exclude db =
    newest merged_time (filter (is_merged_run key exclude) db.runs)

pub record PreviousAttempt : Type 0 where
  pub run_id : Text
  pub pr_url : Text
  pub pr_merged_at : ℕ
  pub parsed_root_cause : Option Text
  pub parsed_diff : Option Text

-- The model's answer is kept with the run from which its columns were read.
unfoldable pub previous_attempt_from_run : Run → ℕ → PreviousAttempt
previous_attempt_from_run run merged_at = record {
  run_id = run.id;
  pr_url = elim run.pr_url [ none ↦ [] | some url ↦ url ];
  pr_merged_at = merged_at;
  parsed_root_cause = elim run.llm [ none ↦ none | some columns ↦ columns.parsed_root_cause ];
  parsed_diff = elim run.llm [ none ↦ none | some columns ↦ some columns.parsed_diff ];
}

-- `pr_status NOT IN ('closed', 'merged')`, which does not hold of NULL
abbrev pub is_listed_status : Option Text → Bool
is_listed_status none = false
is_listed_status (some status) = not (is_closed status)

-- db/repository.py, `list_open_prs`
unfoldable pub list_open_prs : Db → List Run
list_open_prs db =
    filter (λ run. run.pr_opened && is_some run.pr_number && is_listed_status run.pr_status) db.runs
