-- ===== src/System/Null.antt =====
-- The column `pr_status`: agent/pr_poller.py alone writes it, and only to rows that it has read with
-- a value there.
use mathlib.Core.Path.{subst}
use llopster.Base.{
  ◌≡◌, refl, sym, ap, ◌∙◌, Option, none, List, [], ◌∷◌, Bool, true, false, map, Text, text_eq,
  text_eq_refl, All, All-append, filter, Bool-cases, inl, inr, map-append, is_some, Has, All_of_Has,
  Has-map, ◌&&◌, arith,
}
use llopster.Store.{
  Run, Db, modify, create_run_from_alert, new_run, set_setting, delete_runs_older_than,
}
use llopster.Store.{
  update_status, record_triage, record_collected_context, record_investigation, record_llm_response,
  record_pr, record_notification,
}
use llopster.Store.Stages.{
  StageWrite, status_write, status_because_write, triage_write, context_write, investigation_write,
  llm_write, pr_write, notification_write,
}
use llopster.Store.Laws.{runs-modify}
use llopster.Store.Dedup.{
  list_open_prs, find_previous_merged_attempt, is_merged_run, newest, merged_time, is_blocking,
}
use llopster.System.{
  State, Step, created, staged, labelled, configured, pruned, read_open_prs, passed, polled, Steps,
  none_yet, one, then_steps,
}

-- No row has a pull request status, and the poller has no row to go through.
record HasNoStatus (s : State) : Type 0 where
  pub column : All (λ o. o ≡ none) (map (λ run. run.pr_status) s.db.runs)
  pub idle : s.listed ≡ []

column-filter :
    (p : Run → Bool) (runs : List Run)
    → All (λ o. o ≡ none) (map (λ run. run.pr_status) runs)
    → All (λ o. o ≡ none) (map (λ run. run.pr_status) (filter p runs))
column-filter p [] h = tt
column-filter p (run ∷ runs) (a, h) = elim (Bool-cases (p run)) [
  | inl e ↦ rw e (a, column-filter p runs h)
  | inr e ↦ rw e (column-filter p runs h)
]

-- A test that fails without a status passes no row.
filter-column :
    (p : Run → Bool) (runs : List Run)
    → ((run : Run) → run.pr_status ≡ none → p run ≡ false)
    → All (λ o. o ≡ none) (map (λ run. run.pr_status) runs)
    → filter p runs ≡ []
filter-column p [] k h = refl
filter-column p (run ∷ runs) k (a, h) = rw (k run a, filter-column p runs k h)

and_off : (b : Bool) → (b && false) ≡ false
and_off b = ground arith

and_false : (b c : Bool) → (b && c && false) ≡ false
and_false b c = ground arith

list_open_prs_empty :
    (db : Db) → All (λ o. o ≡ none) (map (λ run. run.pr_status) db.runs) → list_open_prs db ≡ []
unfolding list_open_prs
list_open_prs_empty db h =
    filter-column _ db.runs (λ run e. rw e (and_false run.pr_opened (is_some run.pr_number))) h

modify-column :
    (id : Text) (f : Run → Run) (db : Db)
    → ((run : Run) → (f run).pr_status ≡ run.pr_status)
    → All (λ o. o ≡ none) (map (λ run. run.pr_status) db.runs)
    → All (λ o. o ≡ none) (map (λ run. run.pr_status) (modify id f db).runs)
modify-column id f db k h =
    subst (All (λ o. o ≡ none)) (sym (runs-modify (λ run. run.pr_status) id f db k)) h

cons≢nil : {run : Run} {rest : List Run} → run ∷ rest ≡ [] → ⊥
cons≢nil h = cc

-- No write of the pipeline or of a handler touches the status of a pull request.
stage-column :
    (id : Text) (write : Db → Db) (db : Db)
    → StageWrite id write
    → All (λ o. o ≡ none) (map (λ run. run.pr_status) db.runs)
    → All (λ o. o ≡ none) (map (λ run. run.pr_status) (write db).runs)
unfolding update_status record_triage record_collected_context record_investigation
    record_llm_response record_pr record_notification
stage-column id _ db (status_write s) h = modify-column id _ db (λ run. refl) h
stage-column id _ db (status_because_write s e) h = modify-column id _ db (λ run. refl) h
stage-column id _ db (triage_write d) h = modify-column id _ db (λ run. refl) h
stage-column id _ db (context_write c) h = modify-column id _ db (λ run. refl) h
stage-column id _ db (investigation_write i ms) h = modify-column id _ db (λ run. refl) h
stage-column id _ db (llm_write c) h = modify-column id _ db (λ run. refl) h
stage-column id _ db (pr_write url number branch reason) h = modify-column id _ db (λ run. refl) h
stage-column id _ db (notification_write b reason) h = modify-column id _ db (λ run. refl) h

step-HasNoStatus : {s t : State} → Step s t → HasNoStatus s → HasNoStatus t
unfolding create_run_from_alert new_run set_setting delete_runs_older_than
step-HasNoStatus (created s id now alert payload source fresh) h = record {
  column =
      rw (map-append (λ run. run.pr_status) s.db.runs (new_run id now alert payload source ∷ []))
        (All-append (λ o. o ≡ none) (map (λ run. run.pr_status) s.db.runs) _ h.column (refl, tt));
  idle = h.idle;
}
step-HasNoStatus (staged s id write k) h = record {
  column = stage-column id write s.db k h.column;
  idle = h.idle;
}
step-HasNoStatus (labelled s id verdict) h = record {
  column = modify-column id _ s.db (λ run. refl) h.column;
  idle = h.idle;
}
step-HasNoStatus (configured s key value) h = record { column = h.column; idle = h.idle }
step-HasNoStatus (pruned s cutoff) h = record {
  column = column-filter _ s.db.runs h.column;
  idle = h.idle;
}
step-HasNoStatus (read_open_prs s) h = record {
  column = h.column;
  idle = list_open_prs_empty s.db h.column;
}
step-HasNoStatus (passed s run rest e) h = absurd (cons≢nil (sym e ∙ h.idle))
step-HasNoStatus (polled s run rest status now e) h = absurd (cons≢nil (sym e ∙ h.idle))

Steps-HasNoStatus : {s t : State} → Steps s t → HasNoStatus s → HasNoStatus t
Steps-HasNoStatus (none_yet s) h = h
Steps-HasNoStatus (one step) h = step-HasNoStatus step h
Steps-HasNoStatus (then_steps s t u a b) h = Steps-HasNoStatus b (Steps-HasNoStatus a h)

fresh-HasNoStatus : (s : State) → s.db.runs ≡ [] → s.listed ≡ [] → HasNoStatus s
fresh-HasNoStatus s e l = record { column = rw e tt; idle = l }

not_merged :
    (key : Text) (exclude : Option Text) (run : Run)
    → run.pr_status ≡ none
    → is_merged_run key exclude run ≡ false
unfolding is_merged_run
not_merged key exclude run e = rw (e, and_off (text_eq run.dedup_key key))

-- In every state that the tasks reach from an empty table, however they interleave, the poller finds
-- no open pull request to ask GitHub about, and no lookup finds a merged pull request.
pub Steps-unpolled :
    (s t : State) (key : Text) (exclude : Option Text)
    → s.db.runs ≡ []
    → s.listed ≡ []
    → Steps s t
    → (list_open_prs t.db ≡ []) × (find_previous_merged_attempt key exclude t.db ≡ none)
unfolding find_previous_merged_attempt newest
Steps-unpolled s t key exclude e l steps =
    let h = Steps-HasNoStatus steps (fresh-HasNoStatus s e l) in
    (
      list_open_prs_empty t.db h.column,
      ap (newest merged_time)
          (filter-column (is_merged_run key exclude) t.db.runs (not_merged key exclude) h.column),
    )

-- In every such state a run with an open pull request and a URL blocks the other runs for its key,
-- whatever has become of the pull request.
pub Steps-blocked :
    (s t : State) (run : Run)
    → s.db.runs ≡ []
    → s.listed ≡ []
    → Steps s t
    → Has run t.db.runs
    → run.pr_opened ≡ true
    → is_some run.pr_url ≡ true
    → is_blocking run.dedup_key none run ≡ true
unfolding is_blocking
Steps-blocked s t run e l steps m o u =
    let h = Steps-HasNoStatus steps (fresh-HasNoStatus s e l) in
    let n = All_of_Has (λ o. o ≡ none) h.column (Has-map (λ r. r.pr_status) m) in
    rw (text_eq_refl run.dedup_key, o, u, n)
