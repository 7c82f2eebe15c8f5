-- ===== src/Stop/Command.antt =====
-- src/commands/stop.rs and stop/cleanup.rs: `agentbox stop`. The state is the host's; the lock of a
-- workspace, the discoveries and Podman are parameters. The messages of the failures are too.
use agentbox_nix.Session.Target.Input.{
  ResolvedSessionTarget, resolved_git_root, exact_stored_git_root_path, stable_id_prefix, resolve,
}
use agentbox_nix.Shared.{Bool, List, [], ◌∷◌, ◌++◌, filter, length, Result, ok, err, if◌then◌else◌}
use agentbox_nix.Errors.{Error}
use agentbox_nix.Paths.{FilePath}
use agentbox_nix.Session.Record.{SessionRecord}
use agentbox_nix.Session.Collection.{
  SessionGroup, exact_git_root_matches, partition_sessions_by_git_root,
}
use agentbox_nix.Session.Target.Input.{System, SessionTargetInput}
use agentbox_nix.Session.Target.Stop.{
  StopExactGitRootTarget, StopStableIdTarget, StopSessionTargetPlan, exact_git_root, by_id,
  resolve_stop_plan, uses_locked_root_scope, exact_matches_from, require_non_empty_matches,
  require_force_for_matches, require_force,
}
use agentbox_nix.Stop.Cleanup.{Host, ContainerCleanupFailure, cleanup_managed_containers}

module _ (State : Type 0) where
  -- A fallible step that changes the host.
  abbrev pub Step : Type 0 → Type 0
  Step A = State → Result Error A × State

  abbrev pub return : {A : Type 0} → A → Step A
  return a state = (ok a, state)

  abbrev pub lift : {A : Type 0} → Result Error A → Step A
  lift r state = (r, state)

  abbrev continue : {A B : Type 0} → Result Error A → (A → Step B) → Step B
  continue (ok a) f state = f a state
  continue (err e) f state = (err e, state)

  abbrev pub bind : {A B : Type 0} → Step A → (A → Step B) → Step B
  bind m f state = continue (m state).0 f (m state).1

  pub record Services : Type 0 where
    pub system : System
    pub host : Host State
    pub acquire_lock : FilePath → Step (Unit {0})
    pub release_lock : FilePath → State → State
    -- what a discovery finds, for one git root and for all containers
    pub discover_sessions : FilePath → Step (List SessionRecord)
    pub discover_agentbox_containers : Step (List SessionRecord)
    pub stop_failed : List ContainerCleanupFailure → Error
    pub targets_failed : List (SessionTargetInput × Error) → Error

  abbrev release_after : {A : Type 0} → Services → FilePath → Step A → Step A
  release_after services root m state = ((m state).0, services.release_lock root (m state).1)

  -- `with_locked_git_root`: the lock is released when its guard is dropped, on errors too.
  abbrev pub with_locked_git_root : {A : Type 0} → Services → FilePath → Step A → Step A
  with_locked_git_root services root m =
      bind (services.acquire_lock root) (λ _. release_after services root m)

  abbrev Failures : Type 0
  Failures = List ContainerCleanupFailure

  abbrev pub finish_cleanup : Services → Failures → Step (Unit {0})
  finish_cleanup services [] = return tt
  finish_cleanup services (f ∷ fs) = lift (err (services.stop_failed (f ∷ fs)))

  unfoldable pub cleanup_selected_sessions : Services → List SessionRecord → Step Failures
  cleanup_selected_sessions services sessions state =
      let (failures, next) = cleanup_managed_containers State services.host sessions state in
      (ok failures, next)

  -- The sessions are discovered again under the lock.
  unfoldable pub cleanup_running_exact_matches_for_locked_root : Services → FilePath → Step Failures
  unfolding cleanup_selected_sessions
  cleanup_running_exact_matches_for_locked_root services root =
      bind (services.discover_sessions root) (λ sessions.
        cleanup_selected_sessions services
          (filter (λ session. session.container_running) (exact_git_root_matches sessions root)))

  pub data RootedSessionCleanupScope : Type 0 where
    selected running_exact_matches : RootedSessionCleanupScope

  abbrev cleanup_scope : Services → RootedSessionCleanupScope → SessionGroup → Step Failures
  cleanup_scope services selected group = cleanup_selected_sessions services group.sessions
  cleanup_scope services running_exact_matches group =
      cleanup_running_exact_matches_for_locked_root services group.canonical_git_root

  -- The loop over the groups; an error ends it.
  unfoldable pub cleanup_rooted_session_groups :
      Services → RootedSessionCleanupScope → List SessionGroup → Step Failures
  cleanup_rooted_session_groups services scope [] = return []
  cleanup_rooted_session_groups services scope (group ∷ groups) =
      bind
        (with_locked_git_root services group.canonical_git_root
          (cleanup_scope services scope group))
        (λ failures.
          bind (cleanup_rooted_session_groups services scope groups)
            (λ others. return (failures ++ others)))

  unfoldable pub cleanup_stable_id_matches : Services → List SessionRecord → Step Failures
  cleanup_stable_id_matches services sessions =
      cleanup_rooted_session_groups services selected
        (partition_sessions_by_git_root sessions).rooted

  unfoldable pub cleanup_all_running_matches : Services → List SessionRecord → Step Failures
  unfolding cleanup_selected_sessions
  cleanup_all_running_matches services sessions =
      let partition = partition_sessions_by_git_root sessions in
      bind (cleanup_rooted_session_groups services running_exact_matches partition.rooted)
        (λ failures.
          bind (cleanup_selected_sessions services partition.unrooted)
            (λ others. return (failures ++ others)))

  unfoldable pub stop_all_running : Services → Step (Unit {0})
  stop_all_running services = bind services.discover_agentbox_containers (λ sessions.
      bind
        (cleanup_all_running_matches services
          (filter (λ session. session.container_running) sessions))
        (finish_cleanup services))

  abbrev discover_for : Services → StopExactGitRootTarget → Step (List SessionRecord)
  discover_for services plan =
      if uses_locked_root_scope plan
      then services.discover_sessions plan.git_root
      else services.discover_agentbox_containers

  unfoldable pub stop_exact_git_root_matches :
      Services → StopExactGitRootTarget → Bool → SessionTargetInput → Step (Unit {0})
  unfolding cleanup_selected_sessions
  stop_exact_git_root_matches services plan force target =
      bind
        (with_locked_git_root services plan.git_root (
          bind (discover_for services plan) (λ discovered.
            let sessions = exact_matches_from plan discovered in
            bind (lift (require_non_empty_matches plan sessions)) (λ _.
              bind (lift (require_force_for_matches (length sessions) force target))
                (λ _. cleanup_selected_sessions services sessions)))))
        (finish_cleanup services)

  unfoldable pub stop_stable_id :
      Services → StopStableIdTarget → Bool → SessionTargetInput → Step (Unit {0})
  stop_stable_id services plan force target =
      bind (lift (require_force plan force target))
        (λ _. bind (cleanup_stable_id_matches services plan.sessions) (finish_cleanup services))

  abbrev pub stop_plan :
      Services → Bool → SessionTargetInput → StopSessionTargetPlan → Step (Unit {0})
  unfolding stop_exact_git_root_matches stop_stable_id
  stop_plan services force target (exact_git_root plan) =
      stop_exact_git_root_matches services plan force target
  stop_plan services force target (by_id plan) = stop_stable_id services plan force target

  -- Only a stable id needs a discovery; the plan of a path does not look at the sessions.
  abbrev pub discover_if_id :
      Services
      → Result Error ResolvedSessionTarget
      → State
      → Result Error (List SessionRecord) × State
  discover_if_id services (ok (stable_id_prefix _)) state =
      services.discover_agentbox_containers state
  discover_if_id services (ok (resolved_git_root _)) state = (ok [], state)
  discover_if_id services (ok (exact_stored_git_root_path _)) state = (ok [], state)
  discover_if_id services (err _) state = (ok [], state)

  unfoldable pub stop_target : Services → SessionTargetInput → Bool → Step (Unit {0})
  stop_target services target force state =
      let (discovered, next) = discover_if_id services (resolve services.system target) state in
      bind (lift (resolve_stop_plan services.system target discovered))
        (stop_plan services force target) next

  abbrev pub note_failure :
      SessionTargetInput
      → Result Error (Unit {0})
      → List (SessionTargetInput × Error)
      → List (SessionTargetInput × Error)
  note_failure target (ok _) failures = failures
  note_failure target (err e) failures = (target, e) ∷ failures

  -- The loop over several targets: all are attempted.
  unfoldable pub stop_each :
      Services → List SessionTargetInput → Bool → State → List (SessionTargetInput × Error) × State
  stop_each services [] force state = ([], state)
  stop_each services (target ∷ targets) force state =
      let (result, next) = stop_target services target force state in
      let (failures, last) = stop_each services targets force next in
      (note_failure target result failures, last)

  abbrev pub targets_outcome :
      Services → List (SessionTargetInput × Error) → Result Error (Unit {0})
  targets_outcome services [] = ok tt
  targets_outcome services (f ∷ fs) = err (services.targets_failed (f ∷ fs))

  unfoldable pub stop_targets : Services → List SessionTargetInput → Bool → Step (Unit {0})
  unfolding stop_each
  stop_targets services [] force state = (ok tt, state)
  stop_targets services (target ∷ []) force state = stop_target services target force state
  stop_targets services (a ∷ b ∷ targets) force state =
      let (failures, next) = stop_each services (a ∷ b ∷ targets) force state in
      (targets_outcome services failures, next)
