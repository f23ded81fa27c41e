-- ===== src/Store/Valid.antt =====
-- db/models.py: the columns of a run that must agree, and the primary key.
use llopster.Base.{◌≡◌, true, map, is_some, All, Text, AreDistinct}
use llopster.Store.{Run, Db}

-- A pull request was opened exactly if there is a URL, and was merged only if it was polled.
abbrev pub IsValidRun : Run → Type 0
IsValidRun run =
    (run.pr_opened ≡ is_some run.pr_url)
    × (is_some run.pr_merged_at ≡ true → is_some run.pr_status ≡ true)

abbrev pub KeepsValid : (Run → Run) → Type 0
KeepsValid f = (run : Run) → IsValidRun run → IsValidRun (f run)

abbrev pub run_id_of : Run → Text
run_id_of run = run.id

pub record IsValidDb (db : Db) : Type 0 where
  pub rows : All IsValidRun db.runs
  pub keys : AreDistinct (map run_id_of db.runs)
