-- ===== src/Tests/Examples.antt =====
-- The results at fixed inputs.
use llopster.Base.{
  ◌≡◌, refl, Option, none, some, List, [], ◌∷◌, true, false, Text, lit, any, ◌++◌, ends_with,
  contains, split_lines, split_lines_keep, starts_with, is_space, strip, strip_by, rstrip_newlines,
  join_with, split_on, text_eq, member, lower, Has, here, there,
}
use llopster.Github.Client.{
  Request, PullRequest, PatchedFile, is_write, open_pr, ok, create_branch, create_pr, title,
}
use llopster.Github.Client.Gated.{Gated}
use llopster.Github.Client.Gates.{update_requests, open_pr-write, open_pr_requests}
use llopster.Github.Client
use mathlib.Core.Option.{bind}
use llopster.Github.Diff.{parse_file_patches, extract_diff, set_patch}
use llopster.Github.Apply.{apply_patch, locate_hunk}
use llopster.Github.Validate.{validate_patched_files}
use llopster.Github.Client.{make_branch_name}
use llopster.Github.Paths.{
  is_protected_path, normalize_repo_path, is_chart_template, discover_chart_roots,
}
use llopster.Process.World.{github_called}
use llopster.Process.Alert.{process_alert}
use llopster.Process.Frame.{Framed}
use llopster.Process.Results.{Justified, process_alert-write, process_alert_frame}
use llopster.Store.{new_run}
use llopster.Process.Post.{open_phase}
use llopster.Base.Int.{pos}
use llopster.Alerts.{ParsedAlert}
use llopster.Filter.{should_skip}
use llopster.Messages.{not_firing}
use llopster.Process.World
use llopster.Process.Post.{Settings}
use llopster.Process.Gates.{read_settings}
use llopster.Process.Silent.{process_alert_silent}
use llopster.Tests.Data

abbrev pub requests : List Request
requests =
    (open_pr Data.server Data.parsers (lit "o/r") Data.env.branch_timestamp Data.crash
      Data.proposal.text Data.config.open_prs_as_draft none (some (discover_chart_roots false []))
      []).1

requests-is_write : any is_write requests ≡ true
unfolding open_pr lit Client.◌>>=◌ parse_file_patches split_lines split_lines_keep extract_diff
    starts_with bind is_space strip strip_by rstrip_newlines set_patch is_protected_path join_with
    split_on text_eq member lower apply_patch make_branch_name normalize_repo_path is_chart_template
    validate_patched_files locate_hunk
requests-is_write = refl

requests_made :
    Has
      (github_called requests)
      (process_alert Data.env (lit "r1") Data.crash Data.options Data.world).effects
unfolding process_alert open_phase ends_with new_run contains open_pr lit Client.◌>>=◌
    parse_file_patches split_lines split_lines_keep extract_diff starts_with bind is_space strip
    strip_by rstrip_newlines set_patch is_protected_path join_with split_on text_eq member lower
    apply_patch make_branch_name normalize_repo_path is_chart_template validate_patched_files
    locate_hunk
requests_made = there (there (here refl))

process_alert-write_example :
    Justified Data.env (lit "r1") Data.crash Data.options Data.world requests
process_alert-write_example =
    process_alert-write Data.env (lit "r1") Data.crash Data.options Data.world requests refl
      requests_made requests-is_write

process_alert_frame_example :
    Framed
      (lit "r1")
      Data.world
      (process_alert Data.env (lit "r1") Data.crash Data.options Data.world)
process_alert_frame_example =
    process_alert_frame Data.env (lit "r1") Data.crash Data.options Data.world

abbrev roots : Option (List Text)
roots = some (discover_chart_roots false [])

open_pr-write_example :
    (branch : Text) × (files : List PatchedFile) × Gated Data.server Data.parsers
      (lit "o/r")
      none
      roots
      (parse_file_patches (extract_diff Data.proposal.text))
      branch
      files
open_pr-write_example =
    open_pr-write Data.server Data.parsers (lit "o/r") Data.env.branch_timestamp Data.crash
      Data.proposal.text true none roots requests-is_write

abbrev pull_request : PullRequest
pull_request = record {
  number = 7;
  url = lit "url";
  branch = make_branch_name Data.env.branch_timestamp Data.crash;
}

opened :
    open_pr Data.server Data.parsers
      (lit "o/r")
      Data.env.branch_timestamp
      Data.crash
      Data.proposal.text
      true
      none
      roots
      []
    ≡ (ok pull_request, requests)
unfolding ends_with contains open_pr lit Client.◌>>=◌ parse_file_patches split_lines
    split_lines_keep extract_diff starts_with bind is_space strip strip_by rstrip_newlines set_patch
    is_protected_path join_with split_on text_eq member lower apply_patch make_branch_name
    normalize_repo_path is_chart_template validate_patched_files locate_hunk
opened = refl

open_pr_requests_example :
    (base sha : Text) × (files : List PatchedFile) × (reads : List Request) × Gated Data.server
      Data.parsers
      (lit "o/r")
      none
      roots
      (parse_file_patches (extract_diff Data.proposal.text))
      base
      files
    × (any is_write reads ≡ false)
    × (requests
        ≡ reads
          ++ (create_branch (lit "o/r") (make_branch_name Data.env.branch_timestamp Data.crash) sha
              ∷ (update_requests Data.server Data.parsers
                    (lit "o/r")
                    Data.crash
                    (make_branch_name Data.env.branch_timestamp Data.crash)
                    files
                  ++ (create_pr
                        (lit "o/r")
                        (title Data.crash)
                        (make_branch_name Data.env.branch_timestamp Data.crash)
                        base
                        true
                      ∷ []))))
open_pr_requests_example =
    open_pr_requests Data.server Data.parsers (lit "o/r") Data.env.branch_timestamp Data.crash
      Data.proposal.text true none roots pull_request requests opened

abbrev resolved : ParsedAlert
resolved = record Data.crash { status = lit "resolved" }

abbrev settings : Settings
settings = record {
  confidence_threshold = pos 50;
  lookback_minutes = none;
  extra_ignore = [];
  triage_enabled = true;
  triage_min_confidence = pos 70;
  investigation_enabled = true;
  open_prs_as_draft = true;
}

settings_read :
    (read_settings Data.env (lit "r1") resolved Data.options Data.world).0
    ≡ World.Result.ok settings
unfolding read_settings World.◌>>=◌ lit strip lower member text_eq
settings_read = refl

turned_away :
    should_skip resolved Data.env.services settings.extra_ignore
    ≡ some (not_firing (lit "resolved"))
unfolding should_skip lit text_eq
turned_away = refl

process_alert_silent_example :
    (process_alert Data.env (lit "r1") resolved Data.options Data.world).effects
    ≡ Data.world.effects
process_alert_silent_example =
    process_alert_silent Data.env (lit "r1") resolved Data.options Data.world settings
      (not_firing (lit "resolved")) settings_read turned_away
