-- ===== src/Store/Pages.antt =====
-- db/repository.py: the pages of `list_runs`.
use llopster.Base.{◌≡◌, List, true, Option, some, false, Text, is_empty}
use llopster.Base.Newest
use llopster.Store.{Run}
use llopster.Store.Listing.{Query, status_text, operator_label_filter, search_filter}

-- Each row is followed by rows that are not newer.
abbrev pub IsNewestFirst : List Run → Type 0
IsNewestFirst runs = Newest.IsNewestFirst (λ (run : Run). run.created_at) runs

-- The argument, if it is given and not empty, is met.
abbrev pub WhereGiven : Option Text → (Text → Type 0) → Type 0
WhereGiven value P = (t : Text) → value ≡ some t → is_empty t ≡ false → P t

-- What the arguments ask of a row.
pub record Meets (query : Query) (run : Run) : Type 0 where
  pub service : WhereGiven query.service (λ t. run.service ≡ t)
  pub alertname : WhereGiven query.alertname (λ t. run.alertname ≡ t)
  pub status : WhereGiven query.status (λ t. status_text run.processing_status ≡ t)
  pub operator_label : WhereGiven query.operator_label (λ t. operator_label_filter t run ≡ true)
  pub q : WhereGiven query.q (λ t. search_filter t run ≡ true)
