-- ===== src/Tests/Reports.antt =====
-- The results on lists of runs, on entitlements and on grades at fixed inputs.
use llopster.Base.{
  List, ◌≡◌, refl, none, some, [], ◌∷◌, ◌++◌, true, false, Text, lit, member, is_empty, ◌⊎◌,
}
use llopster.Store.{Run, new_run}
use llopster.Store.Listing.{Query}
use llopster.Entitlements.{Decoded, claims, effective_raw_key, entitled_pack_ids, is_pack_enabled}
use llopster.Entitlements.Closed.{Granted, is_pack_enabled-Granted}
use llopster.Scoring.{GroundTruth, ScenarioScore, correct, is_label, score_run}
use llopster.Tests.Data

abbrev query : Query
query = record {
  service = some (lit "api");
  alertname = none;
  status = none;
  operator_label = some (lit "Unlabeled");
  q = some (lit "crash");
}

abbrev decode : Text → Decoded
decode key = claims (record {
  tier = some (lit "business");
  features = some (lit "pack:jvm" ∷ []);
  exp = some 5;
  clusters = none;
  license_id = none;
  sub = none;
})

enabled : is_pack_enabled decode none (lit "key") (lit "") (lit "jvm") ≡ some true
unfolding is_pack_enabled
enabled = refl

is_pack_enabled-Granted_example :
    (is_empty (lit "jvm") ≡ false)
    × (Granted decode (effective_raw_key decode none (lit "key")) (lit "pack:" ++ lit "jvm")
        ⊎ (member (lit "jvm") (entitled_pack_ids (lit "")) ≡ true))
is_pack_enabled-Granted_example =
    is_pack_enabled-Granted decode none (lit "key") (lit "") (lit "jvm") enabled

abbrev truth : GroundTruth
truth = record {
  expect_patch = true;
  expected_files = lit "src/f.txt" ∷ [];
  root_cause_keywords = lit "oom" ∷ [];
  max_confidence = none;
}

abbrev patched : Run
patched = record (new_run (lit "r1") 9 Data.crash (Data.crash_payload ∷ []) (lit "eval")) {
  llm = some (record {
    proposal = Data.proposal;
    latency_ms = 5;
    parsed_root_cause = some (lit "The pod is OOMKilled");
    parsed_diff = lit "+++ b/src/f.txt";
  });
}

graded : is_label correct (score_run (lit "s") truth (some patched)).label ≡ true
unfolding score_run new_run lit
graded = refl

abbrev graded_scores : List ScenarioScore
graded_scores = score_run (lit "s") truth (some patched) ∷ score_run (lit "t") truth none ∷ []
