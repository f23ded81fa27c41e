-- ===== src/Tests/Polls.antt =====
-- A check of a run with a merged pull request.
use llopster.Base.{ℕ, ◌≡◌, refl, none, some, [], ◌∷◌, true, Text, lit, text_eq}
use llopster.Store.{Run, get_run, new_run}
use llopster.Services.{get_service}
use llopster.Process.World.{World, Answer, returned}
use llopster.Tasks.Poller.{PullState, check_pr}
use llopster.Tasks.Recorded.{IsRecorded, check_pr-IsRecorded}
use llopster.Tests.Data

abbrev open_row : Run
open_row = record (new_run (lit "r1") 9 Data.crash (Data.crash_payload ∷ []) (lit "manual")) {
  pr_opened = true;
  pr_url = some (lit "url");
  pr_number = some 7;
  pr_status = some (lit "open");
}

abbrev open_world : World
open_world = record {
  db = record { runs = open_row ∷ []; settings = [] };
  faults = [];
  effects = [];
}

abbrev merged_pull : PullState
merged_pull = record { merged = true; state = none }

abbrev all_merged : Text → ℕ → Answer PullState
all_merged repo number = returned merged_pull

abbrev noon : Text → ℕ
noon id = 12

open_found : get_run (lit "r1") open_world.db ≡ some open_row
unfolding get_run new_run lit text_eq
open_found = refl

registered : get_service (lit "api") Data.env.services ≡ some Data.api
unfolding get_service lit text_eq
registered = refl

check_pr-IsRecorded_example :
    IsRecorded open_row
      (lit "merged")
      open_world.db
      (check_pr Data.env.services all_merged noon open_row open_world).1.db
unfolding new_run lit
check_pr-IsRecorded_example =
    check_pr-IsRecorded Data.env.services all_merged noon open_row open_world refl open_found
      Data.api 7 merged_pull refl registered refl refl refl refl
