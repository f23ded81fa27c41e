-- ===== src/Tests/Data.antt =====
-- The inputs of the runs.
use llopster.Base.{none, some, [], ◌∷◌, ◌++◌, true, false, Text, lit}
use llopster.Base.Int.{pos}
use llopster.Alerts.{ParsedAlert}
use llopster.Alerts.Payload.{RawAlert, text, object}
use llopster.Github.Client
use llopster.Github.Client.{Server}
use llopster.Github.Validate.{Parsers}
use llopster.Services.{ServiceConfig}
use llopster.Store.{Db, PatchProposal, new_run}
use llopster.Process.World.{Env, World, Config, Collected, returned}
use llopster.Process.Gates.{Options}

abbrev pub crash : ParsedAlert
crash = record {
  fingerprint = lit "f1";
  status = lit "firing";
  alertname = lit "PodCrash";
  severity = lit "warning";
  service = lit "api";
  summary = [];
  description = [];
  starts_at = none;
  ends_at = none;
  labels =
      (lit "alertname", lit "PodCrash")
      ∷ (lit "severity", lit "warning")
      ∷ (lit "service", lit "api")
      ∷ [];
  annotations = [];
  generator_url = [];
}

abbrev pub crash_payload : RawAlert
crash_payload =
    (lit "fingerprint", text (lit "f1"))
    ∷ (
      lit "labels",
      object (
          (lit "alertname", lit "PodCrash")
          ∷ (lit "severity", lit "warning")
          ∷ (lit "service", lit "api")
          ∷ []),
    )
    ∷ []

abbrev pub answer_text : Text
answer_text =
    lit "```diff"
    ++ (10 ∷ lit "--- a/f.txt"
        ++ (10 ∷ lit "+++ b/f.txt"
            ++ (10 ∷ lit "@@ -1 +1 @@" ++ (10 ∷ lit "-a" ++ (10 ∷ lit "+b" ++ (10 ∷ lit "```"))))))

abbrev pub proposal : PatchProposal
proposal = record {
  text = answer_text;
  model = lit "claude-opus-4-7";
  input_tokens = 100;
  output_tokens = 10;
  cache_read_tokens = 0;
  cache_creation_tokens = 0;
  confidence = 90;
  confidence_reason = [];
  used_narrowed_context = false;
  file_count = 1;
}

abbrev pub server : Server
server = record {
  default_branch = λ log repo. Client.Reply.returned (lit "main");
  ref_sha = λ log repo branch. Client.Reply.returned (lit "sha");
  file = λ log repo path branch. Client.Reply.returned (lit "a", lit "blob");
  branch_created = λ log. Client.Reply.returned tt;
  file_updated = λ log. Client.Reply.returned tt;
  pr_created = λ log. Client.Reply.returned (7, lit "url");
}

abbrev pub parsers : Parsers
parsers = record {
  check_python = λ path content. none;
  check_yaml = λ path content. none;
  check_json = λ path content. none;
}

abbrev pub api : ServiceConfig
api = record {
  name = lit "api";
  codebase_path = lit "/c";
  github_repo = lit "o/r";
  pack = none;
  delivery = none;
}

abbrev pub config : Config
config = record {
  patch_confidence_threshold = pos 50;
  log_lookback_minutes = pos 30;
  triage_enabled = true;
  triage_min_confidence = pos 70;
  investigation_enabled = true;
  open_prs_as_draft = true;
  patch_backoff_minutes = pos 60;
  max_runs_per_hour = pos 20;
  max_usd_per_day = pos 0;
}

abbrev pub collected : Collected
collected = record {
  columns = record {
    logql_used = none;
    promql_used = none;
    lookback_minutes = pos 30;
    log_line_count = 0;
    metric_sample_count = 0;
    collection_errors = [];
  };
  held = [];
}

abbrev pub env : Env
env = record {
  config = config;
  services = (lit "api", api) ∷ [];
  parse_usd = λ text. none;
  now_breaker = 63000000000000000;
  now_backoff = 63000000000000000;
  now_grace = 63000000000000000;
  branch_timestamp = lit "20260101-000000";
  triage = none;
  collect = λ alert lookback. returned collected;
  investigator = none;
  patcher = some (λ ctx path previous investigation. returned (proposal, 5));
  chart_manifests = λ path. (false, []);
  github = some server;
  parsers = parsers;
  notifier = none;
}

abbrev pub options : Options
options = record { lookback_minutes = none; enforce_cost_breaker = true; enforce_backoff = true }

abbrev pub db : Db
db = record {
  runs = new_run (lit "r1") 62999999999999999 crash (crash_payload ∷ []) (lit "webhook") ∷ [];
  settings = [];
}

abbrev pub world : World
world = record { db = db; faults = []; effects = [] }
