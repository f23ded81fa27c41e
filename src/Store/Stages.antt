-- ===== src/Store/Stages.antt =====
-- db/repository.py: the writes to one row that the pipeline and the handlers of the API make.
use llopster.Base.{ℕ, Option, none, some, Bool, Text}
use llopster.Messages.{Status, Message}
use llopster.Store.{
  TriageDecision, Investigation, ContextColumns, LlmColumns, Db, update_status, record_triage,
  record_collected_context, record_investigation, record_llm_response, record_pr,
  record_notification,
}

pub data StageWrite (id : Text) : (Db → Db) → Type 0 where
  status_write : (s : Status) → StageWrite id (update_status id s none)
  status_because_write : (s : Status) (e : Message) → StageWrite id (update_status id s (some e))
  triage_write : (decision : TriageDecision) → StageWrite id (record_triage id decision)
  context_write : (columns : ContextColumns) → StageWrite id (record_collected_context id columns)
  investigation_write :
      (i : Investigation) (latency_ms : ℕ) → StageWrite id (record_investigation id i latency_ms)
  llm_write : (columns : LlmColumns) → StageWrite id (record_llm_response id columns)
  pr_write :
      (pr_url : Option Text) (pr_number : Option ℕ) (pr_branch : Option Text)
      (reason : Option Message)
      → StageWrite id (record_pr id pr_url pr_number pr_branch reason)
  notification_write :
      (notified : Bool) (reason : Option Message)
      → StageWrite id (record_notification id notified reason)
