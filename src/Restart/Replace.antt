-- ===== src/Restart/Replace.antt =====
-- The rest of src/commands/restart.rs, under the lock: the old container is stopped and its replacement
-- launched. `prepare_runtime_launch` and `ManagedServerLaunch::execute` are arguments; a discovery is an
-- answer in the state where it is asked for.
pub mod Laws
use agentbox_nix.Shared.{
  ℕ, ◌≡◌, refl, ap, sym, ◌∙◌, String, Bool, true, false, Option, none, some, List, [], ◌∷◌, Result,
  ok, err, ◌==◌, string_eq, ==_sound, if◌then◌else◌, ok_injective, ◌⊎◌, subst, Bool-cases, inl, inr,
  arith,
}
use agentbox_nix.Shared.Effects.{Run, ◌>>=◌, ◌>>◌}
use agentbox_nix.Errors.{
  Error, RuntimeKind, launch_directory_unusable, launch_directory_moved, restart_stop_failed,
}
use agentbox_nix.Paths.{FilePath}
use agentbox_nix.Config.{Floats, ResourceLimits, ResourceLimitOverrides}
use agentbox_nix.Metadata.{Json}
use agentbox_nix.Workspace.{WorkspaceIdentity}
use agentbox_nix.Launch.Spec.{RuntimeRunSpec}
use agentbox_nix.Stop.Cleanup.{
  Host, ManagedContainerCleanup, ContainerCleanupFailure, stop_and_verify, remaining_failure,
}
use agentbox_nix.Session.Record.{SessionRecord, canonical_git_root}
use agentbox_nix.Session.Restartable.{RestartableSession, prepare_restart_session}
use agentbox_nix.Session.Target.Input.{System, resolve_workspace_identity}
use agentbox_nix.Session.Target.Restart.{RestartSessionTargetPlan, select_session_candidate}
use agentbox_nix.Restart.{restart_resource_limits}

abbrev pub same_root :
    FilePath
    → SessionRecord
    → FilePath
    → Result Error WorkspaceIdentity
    → Result Error WorkspaceIdentity
same_root locked session directory (err error) =
    err (launch_directory_unusable directory session.container_name error)
same_root locked session directory (ok workspace) =
    if workspace.canonical_git_root == locked
    then ok workspace
    else err (
        launch_directory_moved directory session.container_name workspace.canonical_git_root locked)

unfoldable pub restart_launch_workspace :
    System → FilePath → SessionRecord → FilePath → Result Error WorkspaceIdentity
restart_launch_workspace system locked session directory =
    same_root locked session directory (resolve_workspace_identity system directory)

pub record RestartHost (State : Type 0) : Type 1 where
  pub system : System
  pub json : Json
  pub floats : Floats
  pub podman : Host State
  -- `LockedGitRoot::discover_sessions` and `discover_agentbox_containers`
  pub discover_sessions : FilePath → State → Result Error (List SessionRecord)
  pub discover_agentbox_containers : State → Result Error (List SessionRecord)
  -- `load_config`
  pub default_resource_limits : State → ResourceLimits
  pub prepare_runtime_launch :
      WorkspaceIdentity
      → RuntimeKind
      → List String
      → ResourceLimits
      → Run Error State RuntimeRunSpec
  pub launch : WorkspaceIdentity → RuntimeKind → RuntimeRunSpec → Run Error State (Unit {0})

-- An answer in a state.
abbrev pub ask : {State A : Type 0} → (State → Result Error A) → Run Error State A
ask question s = (question s, s)

abbrev pub stop_outcome : String → Option ContainerCleanupFailure → Result Error (Unit {0})
stop_outcome container none = ok tt
stop_outcome container (some failure) = err (restart_stop_failed container)

module _ {State : Type 0} (host : RestartHost State) where
  unfoldable pub stop_existing_session : SessionRecord → Run Error State (Unit {0})
  stop_existing_session session s =
      let (cleanup, after) = stop_and_verify State host.podman session.container_name s in
      (
        stop_outcome session.container_name (remaining_failure cleanup session.container_name),
        after,
      )

  abbrev pub selected : RestartSessionTargetPlan → FilePath → State → Result Error SessionRecord
  selected plan locked s =
      select_session_candidate host.system plan locked (host.discover_sessions locked s)
        (host.discover_agentbox_containers s)

  abbrev pub limits : SessionRecord → ResourceLimitOverrides → State → Result Error ResourceLimits
  limits session overrides s =
      restart_resource_limits host.floats (host.default_resource_limits s) session overrides

  abbrev pub replace :
      RestartableSession → WorkspaceIdentity → ResourceLimits → Run Error State (Unit {0})
  replace restart workspace resource_limits = do
    spec ← host.prepare_runtime_launch workspace restart.runtime restart.server_args resource_limits
    stop_existing_session restart.session
    host.launch workspace restart.runtime spec

  -- The operation that `restart_target` does under the lock of the git root.
  unfoldable pub restart_locked :
      RestartSessionTargetPlan → ResourceLimitOverrides → FilePath → Run Error State (Unit {0})
  unfolding restart_launch_workspace stop_existing_session
  restart_locked plan overrides locked = do
    session ← ask (selected plan locked)
    restart ← ask (λ _. prepare_restart_session host.json session)
    workspace ←
        ask (λ _.
          restart_launch_workspace host.system locked restart.session restart.launch_directory)
    resource_limits ← ask (limits restart.session overrides)
    replace restart workspace resource_limits
