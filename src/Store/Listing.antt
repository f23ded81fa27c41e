-- ===== src/Store/Listing.antt =====
-- db/repository.py: the lists and counts of runs for the dashboard. Among rows that are equally new
-- SQL may give any order; here it is that of insertion. LIKE has its two wildcards, and no escape.
use llopster.Base.{
  ℕ, ◌==◌, Option, none, some, List, [], ◌∷◌, ◌++◌, Bool, true, false, ◌&&◌, ◌||◌, not,
  if◌then◌else◌, is_empty, is_some, length, take, drop, filter, Text, lit, text_eq, strip, lower,
}
use llopster.Alerts.{or_empty}
use llopster.Messages.{
  Status, pending, queued, triaging, collecting, investigating, generating, posting, done, failed,
  skipped,
}
use llopster.Base.Newest.{sort_newest}
use llopster.Store.{Run, Db}

unfoldable pub status_text : Status → Text
status_text pending = lit "pending"
status_text queued = lit "queued"
status_text triaging = lit "triaging"
status_text collecting = lit "collecting"
status_text investigating = lit "investigating"
status_text generating = lit "generating"
status_text posting = lit "posting"
status_text done = lit "done"
status_text failed = lit "failed"
status_text skipped = lit "skipped"

-- `text LIKE pattern`
unfoldable pub like : Text → Text → Bool
like [] [] = true
like [] (c ∷ s) = false
like (p ∷ ps) [] = p == b'%' && like ps []
like (p ∷ ps) (c ∷ s) =
    let skipped_none = like ps (c ∷ s) in
    let skipped_one = like (p ∷ ps) s in
    let matched = like ps s in
    if p == b'%' then skipped_none || skipped_one else (p == b'_' || p == c) && matched

-- The arguments of `list_runs` and `count_runs`. An empty text is as good as none.
pub record Query : Type 0 where
  pub service : Option Text
  pub alertname : Option Text
  pub status : Option Text
  pub operator_label : Option Text
  pub q : Option Text

abbrev pub if_given : Option Text → (Text → Bool) → Bool
if_given value test = is_empty (or_empty value) || test (or_empty value)

abbrev has_label : Text → Run → Bool
has_label key run = elim run.operator_label [
  | none ↦ false
  | some verdict ↦ text_eq verdict.label key
]

-- `_apply_operator_label_filter`
unfoldable pub operator_label_filter : Text → Run → Bool
unfolding lower strip text_eq
operator_label_filter label run =
    let key = lower (strip label) in
    if text_eq key (lit "labeled")
    then is_some run.operator_label
    else if text_eq key (lit "unlabeled")
    then not (is_some run.operator_label)
    else has_label key run

abbrev answer_like : Text → Run → Bool
answer_like pattern run = elim run.llm [
  | none ↦ false
  | some columns ↦ like pattern (lower columns.proposal.text)
]

unfoldable pub search_filter : Text → Run → Bool
unfolding lower like
search_filter q run =
    let pattern = b'%' ∷ (lower q ++ (b'%' ∷ [])) in
    like pattern (lower run.alertname)
    || like pattern (lower run.service)
    || answer_like pattern run

unfoldable pub matches : Query → Run → Bool
unfolding operator_label_filter search_filter status_text text_eq
matches query run =
    if_given query.service (text_eq run.service)
    && if_given query.alertname (text_eq run.alertname)
    && if_given query.status (text_eq (status_text run.processing_status))
    && if_given query.operator_label (λ label. operator_label_filter label run)
    && if_given query.q (λ q. search_filter q run)

-- `.order_by(desc(Run.created_at))`
unfoldable pub newest_first : List Run → List Run
unfolding sort_newest
newest_first runs = sort_newest (λ (run : Run). run.created_at) runs

unfoldable pub list_runs : ℕ → ℕ → Query → Db → List Run
unfolding matches newest_first
list_runs limit offset query db =
    take limit (drop offset (newest_first (filter (matches query) db.runs)))

-- The filters of the count, which the source writes a second time.
unfoldable pub counted : Query → Run → Bool
unfolding operator_label_filter search_filter status_text text_eq
counted query run =
    if_given query.service (text_eq run.service)
    && if_given query.alertname (text_eq run.alertname)
    && if_given query.status (text_eq (status_text run.processing_status))
    && if_given query.operator_label (λ label. operator_label_filter label run)
    && if_given query.q (λ q. search_filter q run)

unfoldable pub count_runs : Query → Db → ℕ
unfolding counted
count_runs query db = length (filter (counted query) db.runs)

-- An entry of the map; a status without runs has none in the source.
unfoldable pub count_runs_by_status : Status → Db → ℕ
unfolding status_text text_eq
count_runs_by_status status db =
    length
      (filter (λ run. text_eq (status_text run.processing_status) (status_text status)) db.runs)

unfoldable pub list_queued_runs : ℕ → Db → List Run
unfolding newest_first status_text text_eq
list_queued_runs limit db = take limit (
    newest_first
      (filter (λ run. text_eq (status_text run.processing_status) (lit "queued")) db.runs))

unfoldable pub get_all_settings : Db → List (Text × Text)
get_all_settings db = db.settings
