-- ===== src/Examples/Restarts.antt =====
-- A restart of a session, on a machine that has its container. The world says whether it has one.
use agentbox_nix.Shared.{string_discrete, ◌≡◌, refl, Bool, true, false, none, [], ◌∷◌, ok}
use agentbox_nix.Shared.Effects.{Yields}
use agentbox_nix.Text.{is_blank}
use agentbox_nix.Workspace.{WorkspaceIdentity, resolve_workspace_identity_with_git}
use agentbox_nix.Config.{ResourceLimits, ResourceLimitOverrides}
use agentbox_nix.Session.Record.{SessionRecord, server_args, stored_resource_limits}
use agentbox_nix.Session.Selection.{select_stable_id_prefix_with_noun}
use agentbox_nix.Session.Target.Input.{resolve, resolve_workspace_identity}
use agentbox_nix.Session.Target.Restart.{select_session_candidate}
use agentbox_nix.Metadata.{required_label_value}
use agentbox_nix.Paths.{path_eq, components, path_is_or_descendant}
use agentbox_nix.Runtime.{parse_runtime_kind}
use agentbox_nix.Stop.Cleanup.{remaining_failure, stop_and_verify}
use agentbox_nix.Restart.{restart_resource_limits}
use agentbox_nix.Session.Restartable.{RestartableSession, prepare_restart_session}
use agentbox_nix.Restart.Replace.{RestartHost, restart_locked, selected, limits}
use agentbox_nix.Restart.Replace.Laws.{Replaces, restart_locked-Replaces}
use agentbox_nix.Examples.Data.{json}
use agentbox_nix.Examples.Workspaces.{floats}
use agentbox_nix.Examples.Targets.{a, system, restart_plan}
use agentbox_nix.Examples.Launches.{spec}

abbrev host : RestartHost Bool
host = record {
  system = system;
  json = json;
  floats = floats;
  podman = record {
    stop_ignore = λ name s. (ok tt, false);
    container_exists = λ name s. (ok s, s);
    remove_attach_token = λ session s. s;
  };
  discover_sessions = λ root s. ok (a ∷ []);
  discover_agentbox_containers = λ s. ok (a ∷ []);
  default_resource_limits = λ s. record { cpus = none; memory = none };
  prepare_runtime_launch = λ place runtime args limits s. (ok spec, s);
  launch = λ place runtime run s. (ok tt, true);
}

abbrev no_overrides : ResourceLimitOverrides
no_overrides = record { cpus = none; memory = none }

restarts : Yields (restart_locked host restart_plan no_overrides "/w") true tt true
unfolding restart_locked select_session_candidate resolve select_stable_id_prefix_with_noun
    string_discrete required_label_value is_blank path_eq components prepare_restart_session
    parse_runtime_kind server_args resolve_workspace_identity_with_git path_is_or_descendant
    restart_resource_limits stored_resource_limits remaining_failure stop_and_verify
restarts = refl

restart_locked-Replaces_example :
    (session : SessionRecord) × (restart : RestartableSession) × (place : WorkspaceIdentity)
    × (resource_limits : ResourceLimits) × (selected host restart_plan "/w" true ≡ ok session)
    × (prepare_restart_session json session ≡ ok restart)
    × (resolve_workspace_identity system restart.launch_directory ≡ ok place)
    × (place.canonical_git_root ≡ "/w")
    × (limits host restart.session no_overrides true ≡ ok resource_limits)
    × Replaces host restart place resource_limits true true
restart_locked-Replaces_example =
    restart_locked-Replaces host restart_plan no_overrides "/w" true true restarts
