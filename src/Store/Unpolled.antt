-- ===== src/Store/Unpolled.antt =====
-- db/repository.py: `list_open_prs`, the poller's list, against the lookup of agent/dedup.py.
use llopster.Base.{◌≡◌, none, true, ◌&&◌, is_some, arith, Has, All_of_Has, filter-All, text_eq_refl}
use llopster.Store.{Run, Db}
use llopster.Store.Dedup.{is_blocking, is_listed_status, list_open_prs}

-- A run with a pull request whose state was never polled holds up the firings of its key, and yet
-- the poller's list never has it.
list_open_prs-unpolled :
    (run : Run) (db : Db)
    → run.pr_opened ≡ true
    → is_some run.pr_url ≡ true
    → run.pr_status ≡ none
    → (is_blocking run.dedup_key none run ≡ true) × (Has run (list_open_prs db) → ⊥)
unfolding list_open_prs is_blocking
list_open_prs-unpolled run db opened url unpolled = (
  ground (arith, text_eq_refl run.dedup_key, opened, url, unpolled),
  λ m. never unpolled (All_of_Has _ (filter-All _ db.runs) m),
)
  where
    never :
        run.pr_status ≡ none
        → (run.pr_opened && is_some run.pr_number && is_listed_status run.pr_status) ≡ true
        → ⊥
    never e h = ground (arith, e, h)
