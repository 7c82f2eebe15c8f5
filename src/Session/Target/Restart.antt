-- ===== src/Session/Target/Restart.antt =====
-- src/session/target/restart.rs: the workspace that a restart locks, and the one session that it
-- restarts once the lock is held.
pub mod Laws
use agentbox_nix.Shared.{
  String, ◌≡◌, Bool, true, false, List, [], ◌∷◌, length, any, Result, ok, err, ◌>>=◌, if◌then◌else◌,
}
use agentbox_nix.Errors.{
  Error, restart, restart_target_changed, restart_target_changed_away,
  no_session_matches_restart_target, restart_target_matches_many,
}
use agentbox_nix.Paths.{FilePath, path_eq}
use agentbox_nix.Session.Record.{SessionRecord, canonical_git_root}
use agentbox_nix.Session.Collection.{exact_git_root_matches}
use agentbox_nix.Session.Discovery.Scope.{is_root}
use agentbox_nix.Session.Target.Input.{
  System, SessionTargetInput, ResolvedSessionTarget, resolved_git_root, exact_stored_git_root_path,
  stable_id_prefix, display, resolve,
}
use agentbox_nix.Session.Target.Selected.{
  StableIdTargetSelection, single_recoverable_git_root, select_agentbox_stable_id_target,
}

pub record RestartSessionTargetPlan : Type 0 where
  pub input : SessionTargetInput
  pub lock_git_root : FilePath

abbrev pub restart_lock_git_root_for_stable_id_from_sessions :
    List SessionRecord → String → Result Error FilePath
restart_lock_git_root_for_stable_id_from_sessions sessions prefix = do
  selection ← select_agentbox_stable_id_target sessions prefix
  single_recoverable_git_root selection restart

abbrev lock_root : Result Error (List SessionRecord) → ResolvedSessionTarget → Result Error FilePath
lock_root discovered (resolved_git_root root) = ok root
lock_root discovered (exact_stored_git_root_path root) = ok root
lock_root discovered (stable_id_prefix prefix) = do
  sessions ← discovered
  restart_lock_git_root_for_stable_id_from_sessions sessions prefix

unfoldable pub resolve_restart_plan :
    System
    → SessionTargetInput
    → Result Error (List SessionRecord)
    → Result Error RestartSessionTargetPlan
resolve_restart_plan system target discovered = do
  resolved ← resolve system target
  root ← lock_root discovered resolved
  ok (record { input = target; lock_git_root = root })

abbrev pub require_locked_restart_target_unchanged : FilePath → FilePath → Result Error (Unit {0})
require_locked_restart_target_unchanged locked current =
    if path_eq locked current then ok tt else err (restart_target_changed locked current)

abbrev pub require_stable_id_still_matches_locked_root :
    FilePath → List SessionRecord → Result Error (Unit {0})
require_stable_id_still_matches_locked_root locked sessions =
    if any (λ session. is_root (canonical_git_root session) locked) sessions
    then ok tt
    else err (restart_target_changed_away locked)

abbrev pub require_single_restart_target_match :
    List SessionRecord → SessionTargetInput → Result Error SessionRecord
require_single_restart_target_match [] target =
    err (no_session_matches_restart_target (display target))
require_single_restart_target_match (session ∷ []) target = ok session
require_single_restart_target_match (a ∷ b ∷ sessions) target =
    err (restart_target_matches_many (display target) (length (a ∷ b ∷ sessions)))

-- `matching_sessions`, once the input is resolved again. The two discoveries are what they return
-- when they are called: the sessions of the locked root, and all sessions.
abbrev pub matching_resolved :
    FilePath
    → (locked_sessions all_sessions : Result Error (List SessionRecord)) → ResolvedSessionTarget
    → Result Error (List SessionRecord)
matching_resolved locked locked_sessions all_sessions (resolved_git_root root) = do
  _ ← require_locked_restart_target_unchanged locked root
  locked_sessions
matching_resolved locked locked_sessions all_sessions (exact_stored_git_root_path root) = do
  _ ← require_locked_restart_target_unchanged locked root
  sessions ← all_sessions
  ok (exact_git_root_matches sessions root)
matching_resolved locked locked_sessions all_sessions (stable_id_prefix prefix) = do
  sessions ← all_sessions
  selection ← select_agentbox_stable_id_target sessions prefix
  _ ← require_stable_id_still_matches_locked_root locked selection.sessions
  ok selection.sessions

unfoldable pub select_session_candidate :
    System
    → RestartSessionTargetPlan
    → FilePath
    → (locked_sessions all_sessions : Result Error (List SessionRecord))
    → Result Error SessionRecord
select_session_candidate system plan locked locked_sessions all_sessions = do
  resolved ← resolve system plan.input
  sessions ← matching_resolved locked locked_sessions all_sessions resolved
  require_single_restart_target_match sessions plan.input
