-- ===== src/Session/Target/Input.antt =====
-- src/session/target/input.rs: a target that is given on the command line, or a stable id. Targets
-- are texts; a target that is not UTF-8, which the source refuses, is not represented.
use agentbox_nix.Shared.{ℕ, String, Bool, List, Result, ok, ◌>>=◌, if◌then◌else◌}
use agentbox_nix.Errors.{Error}
use agentbox_nix.Paths.{FilePath, is_absolute}
use agentbox_nix.Workspace.{WorkspaceIdentity, Host, resolve_workspace_identity_with_git}

-- The host: the digest, what git and the file system answer, and `Path::exists`.
pub record System : Type 0 where
  pub sha256 : String → List ℕ
  pub host : Host
  pub exists : FilePath → Bool

pub data SessionTargetInput : Type 0 where
  cli : FilePath → SessionTargetInput
  by_stable_id : String → SessionTargetInput

pub data ResolvedSessionTarget : Type 0 where
  resolved_git_root : FilePath → ResolvedSessionTarget
  exact_stored_git_root_path : FilePath → ResolvedSessionTarget
  stable_id_prefix : String → ResolvedSessionTarget

abbrev pub display : SessionTargetInput → String
display (cli path) = path
display (by_stable_id id) = id

abbrev pub resolve_workspace_identity : System → FilePath → Result Error WorkspaceIdentity
resolve_workspace_identity system path =
    resolve_workspace_identity_with_git system.sha256 system.host path

abbrev classify_missing_cli_session_target : FilePath → Result Error ResolvedSessionTarget
classify_missing_cli_session_target target =
    if is_absolute target
    then ok (exact_stored_git_root_path target)
    else ok (stable_id_prefix target)

abbrev resolve_cli_session_target : System → FilePath → Result Error ResolvedSessionTarget
resolve_cli_session_target system target =
    if system.exists target
    then (do
      workspace ← resolve_workspace_identity system target
      ok (resolved_git_root workspace.canonical_git_root))
    else classify_missing_cli_session_target target

unfoldable pub resolve : System → SessionTargetInput → Result Error ResolvedSessionTarget
resolve system (cli path) = resolve_cli_session_target system path
resolve system (by_stable_id prefix) = ok (stable_id_prefix prefix)
