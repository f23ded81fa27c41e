-- ===== src/Tests/Held.antt =====
-- A run with the collectors of context and of the cluster, at fixed inputs.
use llopster.Base.{
  ◌≡◌, refl, lit, ends_with, contains, split_lines, split_lines_keep, starts_with, is_space, strip,
  strip_by, rstrip_newlines, join_with, split_on, text_eq, member, lower, Has, here, there,
}
use llopster.Github.Client.{
  Request, PullRequest, PatchedFile, is_write, open_pr, ok, create_branch, create_pr, title,
}
use llopster.Github.Client
use mathlib.Core.Option.{bind}
use llopster.Github.Diff.{parse_file_patches, extract_diff, set_patch}
use llopster.Github.Apply.{apply_patch, locate_hunk}
use llopster.Github.Validate.{validate_patched_files}
use llopster.Github.Client.{make_branch_name}
use llopster.Github.Paths.{is_protected_path, normalize_repo_path, is_chart_template}
use llopster.Process.World.{github_called}
use llopster.Process.Alert.{process_alert}
use llopster.Store.{new_run}
use llopster.Process.Post.{open_phase}
use llopster.Process.World
use llopster.Process.Post.{Settings}
use llopster.Process.Gates.{read_settings}
use llopster.Tests.Data
use llopster.Context.Pipeline.{collect_for}
use llopster.Context.Held.{IsFree, process_alert-unsuspended}
use llopster.Process.World.{Env}
use llopster.Cluster.Session
use llopster.Cluster.Session.{and_then}
use llopster.Cluster.Collect
use llopster.Tests.Cluster
use llopster.Tests.Context
use llopster.Tests.Examples

abbrev collecting_env : Env
collecting_env = record Data.env {
  collect = collect_for Context.context_collector Cluster.library Cluster.server Cluster.fresh;
}

requests_made :
    Has
      (github_called Examples.requests)
      (process_alert collecting_env (lit "r1") Data.crash Data.options Data.world).effects
unfolding process_alert open_phase ends_with new_run contains open_pr lit Client.◌>>=◌
    parse_file_patches split_lines split_lines_keep extract_diff starts_with bind is_space strip
    strip_by rstrip_newlines set_patch is_protected_path join_with split_on text_eq member lower
    apply_patch make_branch_name normalize_repo_path is_chart_template validate_patched_files
    locate_hunk collect_for and_then Session.pure Collect.collect
requests_made = there (there (here refl))

process_alert-unsuspended_example :
    (settings : Settings) × ((read_settings collecting_env
        (lit "r1")
        Data.crash
        Data.options
        Data.world).0
      ≡ World.ok settings)
    × IsFree Context.context_collector Cluster.library Cluster.server Cluster.fresh Data.crash
        settings.lookback_minutes
process_alert-unsuspended_example =
    process_alert-unsuspended Context.context_collector Cluster.library Cluster.server Cluster.fresh
      collecting_env (lit "r1") Data.crash Data.options refl Data.world
      (github_called Examples.requests) refl requests_made refl
