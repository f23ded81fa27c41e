-- ===== src/System/Invariant.antt =====
-- The invariant of the shared database.
use mathlib.Core.Path.{subst}
use llopster.Base.{
  ◌≡◌, refl, sym, ◌∙◌, List, [], ◌∷◌, Bool, false, map, Text, text_eq, member, All, All-append,
  filter, Bool-cases, inl, inr, map-append, AreDistinct, AreDistinct-append,
}
use mathlib.Core.Bool.{true≢false}
use llopster.Store.{
  Run, Db, modify, change_row, create_run_from_alert, new_run, set_setting, delete_runs_older_than,
  update_pr_status,
}
use llopster.Store.{
  update_status, record_triage, record_collected_context, record_investigation, record_llm_response,
  record_pr, record_notification,
}
use llopster.Store.Stages.{
  StageWrite, status_write, status_because_write, triage_write, context_write, investigation_write,
  llm_write, pr_write, notification_write,
}
use llopster.Store.Laws.{runs-modify}
use llopster.Store.Valid.{IsValidRun, KeepsValid, IsValidDb, run_id_of}
use llopster.System.{
  State, Step, created, staged, labelled, configured, pruned, read_open_prs, passed, polled, Steps,
  none_yet, one, then_steps,
}

All-change_row :
    (P : Run → Type 0) (id : Text) (f : Run → Run) (runs : List Run)
    → ((run : Run) → P run → P (f run))
    → All P runs
    → All P (change_row id f runs)
unfolding change_row
All-change_row P id f [] k h = tt
All-change_row P id f (run ∷ runs) k (a, h) = elim (Bool-cases (text_eq run.id id)) [
  | inl e ↦ rw e (k run a, h)
  | inr e ↦ rw e (a, All-change_row P id f runs k h)
]

All-filter_keep :
    (P : Run → Type 0) (p : Run → Bool) (runs : List Run) → All P runs → All P (filter p runs)
All-filter_keep P p [] h = tt
All-filter_keep P p (run ∷ runs) (a, h) = elim (Bool-cases (p run)) [
  | inl e ↦ rw e (a, All-filter_keep P p runs h)
  | inr e ↦ rw e (All-filter_keep P p runs h)
]

member-filter :
    (x : Text) (p : Run → Bool) (runs : List Run)
    → member x (map run_id_of runs) ≡ false
    → member x (map run_id_of (filter p runs)) ≡ false
unfolding member
member-filter x p [] h = refl
member-filter x p (run ∷ runs) h = elim (Bool-cases (text_eq x run.id)) [
  | inl t ↦ absurd (true≢false (sym (rw t) ∙ h))
  | inr t ↦ elim (Bool-cases (p run)) [
    | inl e ↦ rw (e, t) (member-filter x p runs (sym (rw t) ∙ h))
    | inr e ↦ rw e (member-filter x p runs (sym (rw t) ∙ h))
  ]
]

AreDistinct-filter :
    (p : Run → Bool) (runs : List Run)
    → AreDistinct (map run_id_of runs)
    → AreDistinct (map run_id_of (filter p runs))
AreDistinct-filter p [] d = tt
AreDistinct-filter p (run ∷ runs) (a, d) = elim (Bool-cases (p run)) [
  | inl e ↦ rw e (member-filter run.id p runs a, AreDistinct-filter p runs d)
  | inr e ↦ rw e (AreDistinct-filter p runs d)
]

modify-IsValidDb :
    (id : Text) (f : Run → Run) (db : Db)
    → KeepsValid f
    → ((run : Run) → run_id_of (f run) ≡ run_id_of run)
    → IsValidDb db
    → IsValidDb (modify id f db)
unfolding modify
modify-IsValidDb id f db k i v = record {
  rows = All-change_row IsValidRun id f db.runs k v.rows;
  keys = subst AreDistinct (sym (runs-modify run_id_of id f db i)) v.keys;
}

stage-IsValidDb :
    (id : Text) (write : Db → Db) (db : Db)
    → StageWrite id write
    → IsValidDb db
    → IsValidDb (write db)
unfolding update_status record_triage record_collected_context record_investigation
    record_llm_response record_pr record_notification
stage-IsValidDb id _ db (status_write s) v = modify-IsValidDb id _ db (λ run h. h) (λ run. refl) v
stage-IsValidDb id _ db (status_because_write s e) v =
    modify-IsValidDb id _ db (λ run h. h) (λ run. refl) v
stage-IsValidDb id _ db (triage_write d) v = modify-IsValidDb id _ db (λ run h. h) (λ run. refl) v
stage-IsValidDb id _ db (context_write c) v = modify-IsValidDb id _ db (λ run h. h) (λ run. refl) v
stage-IsValidDb id _ db (investigation_write i ms) v =
    modify-IsValidDb id _ db (λ run h. h) (λ run. refl) v
stage-IsValidDb id _ db (llm_write c) v = modify-IsValidDb id _ db (λ run h. h) (λ run. refl) v
stage-IsValidDb id _ db (pr_write url number branch reason) v =
    modify-IsValidDb id _ db (λ run h. (refl, h.1)) (λ run. refl) v
stage-IsValidDb id _ db (notification_write notified reason) v =
    modify-IsValidDb id _ db (λ run h. h) (λ run. refl) v

step-IsValidDb : {s t : State} → Step s t → IsValidDb s.db → IsValidDb t.db
unfolding create_run_from_alert new_run set_setting delete_runs_older_than update_pr_status
step-IsValidDb (created s id now alert payload source fresh) v = record {
  rows = All-append IsValidRun s.db.runs _ v.rows ((refl, λ h. absurd (cc)), tt);
  keys =
      rw (map-append run_id_of s.db.runs (new_run id now alert payload source ∷ []))
        (AreDistinct-append (map run_id_of s.db.runs) id v.keys fresh);
}
step-IsValidDb (staged s id write h) v = stage-IsValidDb id write s.db h v
step-IsValidDb (labelled s id verdict) v = modify-IsValidDb id _ s.db (λ run h. h) (λ run. refl) v
step-IsValidDb (configured s key value) v = record { rows = v.rows; keys = v.keys }
step-IsValidDb (pruned s cutoff) v = record {
  rows = All-filter_keep IsValidRun _ s.db.runs v.rows;
  keys = AreDistinct-filter _ s.db.runs v.keys;
}
step-IsValidDb (read_open_prs s) v = v
step-IsValidDb (passed s run rest e) v = v
step-IsValidDb (polled s run rest status now e) v =
    modify-IsValidDb run.id _ s.db (λ r h. (h.0, λ g. refl)) (λ r. refl) v

-- However the tasks interleave, they keep the database well-formed: the primary keys stay distinct,
-- a row has its pull request flag exactly if it has a URL, and a merge time only if it has a status.
pub Steps-IsValidDb : {s t : State} → Steps s t → IsValidDb s.db → IsValidDb t.db
Steps-IsValidDb (none_yet s) v = v
Steps-IsValidDb (one step) v = step-IsValidDb step v
Steps-IsValidDb (then_steps s t u a b) v = Steps-IsValidDb b (Steps-IsValidDb a v)
