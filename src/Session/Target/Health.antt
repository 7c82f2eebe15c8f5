-- ===== src/Session/Target/Health.antt =====
-- src/session/target/health.rs: the running sessions that `agentbox health` probes.
pub mod Laws
use agentbox_nix.Shared.{
  String, Bool, true, false, Option, none, some, List, [], ◌∷◌, filter, unwrap_or, ok_or, Result,
  ok, err, ◌>>=◌, if◌then◌else◌,
}
use agentbox_nix.Errors.{
  Error, no_running_session, many_sessions_of_workspace, many_sessions_of_id, only_running_probed,
}
use agentbox_nix.Paths.{FilePath}
use agentbox_nix.Workspace.{WorkspaceIdentity}
use agentbox_nix.Session.Record.{SessionRecord, is_running, stable_id}
use agentbox_nix.Session.Collection.{exact_git_root_matches}
use agentbox_nix.Session.Selection.{StableIdPrefixSelection, single, select_stable_id_prefix}
use agentbox_nix.Session.Target.Input.{System, resolve_workspace_identity}

pub data HealthSessionTargetPlan : Type 0 where
  running_sessions : HealthSessionTargetPlan
  id_prefix : String → HealthSessionTargetPlan
  workspace : FilePath → HealthSessionTargetPlan

unfoldable pub from_target : System → Option String → Result Error HealthSessionTargetPlan
from_target system none = ok running_sessions
from_target system (some target) =
    if system.exists target
    then (do
      identity ← resolve_workspace_identity system target
      ok (workspace identity.canonical_git_root))
    else ok (id_prefix target)

abbrev running_only : String → SessionRecord → Result Error (List SessionRecord)
running_only target session =
    if is_running session then ok (session ∷ []) else err (only_running_probed target)

abbrev single_workspace_match : FilePath → List SessionRecord → Result Error SessionRecord
single_workspace_match root [] = err (no_running_session root)
single_workspace_match root (session ∷ []) = ok session
single_workspace_match root (_ ∷ _ ∷ _) = err (many_sessions_of_workspace root)

-- The filter is the one of `exact_git_root_matches`.
abbrev pub select_workspace_health_session :
    List SessionRecord → FilePath → Result Error (List SessionRecord)
select_workspace_health_session sessions root = do
  session ← single_workspace_match root (exact_git_root_matches sessions root)
  running_only (unwrap_or (stable_id session) root) session

abbrev pub select_stable_id_health_session :
    List SessionRecord → String → Result Error (List SessionRecord)
select_stable_id_health_session sessions prefix = do
  selection ← select_stable_id_prefix sessions prefix
  session ← ok_or (single selection.sessions) (many_sessions_of_id selection.id)
  running_only (unwrap_or (stable_id session) selection.id) session

unfoldable pub select_sessions :
    HealthSessionTargetPlan → List SessionRecord → Result Error (List SessionRecord)
select_sessions running_sessions sessions = ok (filter is_running sessions)
select_sessions (id_prefix prefix) sessions = select_stable_id_health_session sessions prefix
select_sessions (workspace root) sessions = select_workspace_health_session sessions root
