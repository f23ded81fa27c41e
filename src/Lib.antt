-- ===== src/Lib.antt =====
-- LLopster turns a firing alert into a pull request: a pipeline of gates and model calls, a store
-- of runs, and a client of GitHub that applies the model's diff.
--
-- The program's parts and their modules, with the paths of the code:
--   Base       shared names: lists, texts (lists of code points), integers, Boolean tests
--   Alerts     src/agent/alert_handler.py, the key of src/agent/dedup.py; Alerts.Payload is the parsing
--              of a payload and alert_to_payload of src/agent/processor.py
--   Services   src/services_registry.py (entries and lookup)
--   Filter     src/agent/alert_filter.py, src/agent/gitops.py
--   Cost       src/agent/cost.py
--   Messages   the statuses, exceptions and stored texts of src/agent/processor.py
--   Models     src/db/models.py, and the records of the model stages
--   Store      src/db/repository.py, Store.Stages its writes to one row by name; Store.Dedup is
--              src/agent/dedup.py
--   Github     src/integrations/github_client.py: Paths (the protected paths), Diff (the parser;
--              Diff.Sections are the diffs that it is to read),
--              Apply (location and application of hunks), Client (open_pr);
--              Validate is src/agent/patch_validator.py
--   Process    src/agent/processor.py: Gates, Analyse and Post are process_alert from its start to its
--              end, Alert is the function itself; Breaker is src/agent/cost_breaker.py and
--              src/agent/processing_mode.py
--   Json       the values of json.loads, and how the clients below read them
--   Cluster    Client is KubernetesClient of src/integrations/kubernetes_client.py, and Redact, Parse,
--              Pods, Labels and Events its functions; Flux, FluxParse and FluxObjects are
--              src/integrations/flux_client.py; Collect is the collector of
--              src/agent/cluster_state.py, with State, PodSearch, Evidence, Targets and Delivery as
--              its parts; Urls is strip_url_credentials of src/agent/alert_handler.py; Objects has the
--              records of all three, and Session the state of a client. The other modules are their
--              theorems: Rules are those of the actions, Permitted says which requests the scope
--              allows, Answers what is assumed of the answers, Secrets what a redaction may hide
--   Context    src/agent/context_collector.py: Collect is ContextCollector, and Pipeline what
--              process_alert makes of it; Loki and Prometheus are the
--              parsing of answers in src/integrations/loki_client.py and
--              src/integrations/prometheus_client.py
--   Api        Webhook is alertmanager_webhook of src/api/main.py; Trigger is trigger_submit and
--              trigger_dispatch of src/api/trigger_routes.py; Auth is
--              src/api/auth.py; the other modules are their theorems
--   Tasks      one round of src/agent/pr_poller.py and of src/agent/run_pruner.py
--   System     the writes of all tasks to the one database, as a step relation
--   Entitlements  src/agent/license.py and src/agent/entitlements.py
--   Scoring    eval/scoring.py
--   Answers    the parsing of the models' answers: _parse_root_cause of src/agent/processor.py,
--              _parse_decision of src/agent/triage.py, _parse_confidence of
--              src/agent/patch_generator.py and src/agent/investigator.py, _parse_affected_files of the
--              latter
--   Tests      runs at fixed inputs
--
-- How they interact: process_alert reads the store, calls the collaborators, writes its row after
-- each stage, and lets the client of GitHub open the pull request. World is its state: the
-- database, the uses of it that are to fail, and the calls made. An exception is a value. Each part
-- of the function ends with a call of the part behind it, as its early returns ask. Process.Reach
-- is the relation of a run's possible steps, and Process.Sound goes through the stages with it. The
-- handlers of Api work on the same World; a background run that they start is one of its effects.
-- System.Step has a step for each kind of write, so that a sequence of steps is an interleaving of
-- the tasks; within one function of Process, Api or Tasks no other task runs in between. The
-- actions of Cluster keep the log of their requests, all of them reads, and the versions of Flux
-- that are remembered; an answer may depend on all requests before it. Context.Collect runs the
-- collector of Cluster. To process_alert the collection of context is one answer, and
-- Context.Pipeline makes the actions into such an answer.
--
-- Parameters: fresh primary keys, the reading and writing of ISO dates, the verification of a
-- signed key, the decoding of base64, the comparison of secrets, the models, Loki, Prometheus and
-- the cluster (as the collector), the server of GitHub, the notifier, the parsers of Python, YAML
-- and JSON, the clock and the file tree of a clone; in Cluster the API server, the monotonic clock,
-- and as a record Library the functions of Python's library on dates, URLs and the rendering of
-- values; in Context the answers of Loki and Prometheus, floating point numbers and the parsing of
-- URLs. Nothing is assumed of them, but that primary keys are new and distinct, that secrets are
-- compared as documented, and that an object of Flux says which namespace it was read in, where a
-- theorem says so.
--
-- All loops are structural recursion, so no fuel is needed. Dollar amounts are natural numbers of
-- hundred-millionths. Instants are microseconds since year 1. The walk along the owners has the
-- rounds of the code, MAX_OWNER_DEPTH, and the walk along the sources of a Flux object
-- MAX_SOURCE_HOPS. In Cluster a dict is the list of its entries, the numbers of a JSON text are
-- integers, the limits of the collector are natural numbers, and a value of a type that the code
-- does not expect counts as an exception other than those of the clients.
--
-- Not modelled: the dashboard (but for the lists of src/db/repository.py, in Store.Listing) and the
-- pages of the API, the rendering of the state of the cluster, the credentials and the transport of
-- the clients, the clients of Slack and Teams, the prompts and the calls of the models, the files
-- of packs, the endless loops around a round of the poller and the pruner, and logging. Of the
-- columns of a run, the JSON copies of log lines, samples and the cluster state are left out.
-- Unicode is not normalised: lower case is that of ASCII letters.
pub mod Base
pub mod Alerts
pub mod Github
pub mod Messages
pub mod Models
pub mod Store
pub mod Services
pub mod Filter
pub mod Cost
pub mod Entitlements
pub mod Scoring
pub mod Answers
pub mod Json
pub mod Cluster
pub mod Context
pub mod Process
pub mod Tasks
pub mod System
pub mod Api
pub mod Tests
