-- ===== src/Session/Conflict.antt =====
-- src/session/conflict.rs: which error explains that a workspace cannot get its container.
pub mod Laws
use agentbox_nix.Shared.{ℕ, List}
use agentbox_nix.Session.Status.{has_volume_mount_destination, required_nix_cache_mount_destination}
use agentbox_nix.Session.Labels.{report_attach_labels}
use agentbox_nix.Shared.{
  String, Bool, true, false, not, ◌&&◌, Option, none, some, Result, ok, err, unwrap_or, or_option,
  error_of, map_option, if◌then◌else◌, ◌==◌, string_eq,
}
use agentbox_nix.Errors.{
  Error, AgentboxContainerKind, managed, run, SessionFailure, drifted_git_root_hash,
  missing_cache_mount, agentbox_container_requires_action, hash_collision, different_root,
  unmanaged_container_conflict, already_running, orphaned_managed_session, failed_managed_session,
  duplicate_managed_sessions,
}
use agentbox_nix.Podman.{PodmanContainerInspect}
use agentbox_nix.Workspace.{WorkspaceIdentity}
use agentbox_nix.Metadata.{agentbox_container_kind_from_labels}
use agentbox_nix.Session.Record.{
  SessionStatus, running, orphaned, duplicate, failed, SessionRecord, stable_id, logical_name_or,
}
use agentbox_nix.Session.Labels.{SessionIdentityLabels, SessionLabelReport, from_metadata}

abbrev pub failure_conflict_error :
    WorkspaceIdentity → AgentboxContainerKind → String → SessionFailure → Error
failure_conflict_error workspace kind name failure =
    agentbox_container_requires_action kind workspace.canonical_git_root name failure

abbrev pub generic_failed_session_error : WorkspaceIdentity → String → Error
generic_failed_session_error workspace name =
    failed_managed_session workspace.canonical_git_root name

pub record ManagedContainerConflict : Type 0 where
  pub workspace : WorkspaceIdentity
  pub container_name : String
  pub container_kind : AgentboxContainerKind
  pub identity : SessionIdentityLabels
  pub same_root_failure : Option SessionFailure
  pub inspect : PodmanContainerInspect

abbrev pub root_matches_workspace : ManagedContainerConflict → Bool
root_matches_workspace c = c.identity.canonical_git_root == c.workspace.canonical_git_root

abbrev pub hash_matches_workspace : ManagedContainerConflict → Bool
hash_matches_workspace c = c.identity.git_root_hash == c.workspace.hash12

abbrev pub hash_matches_different_root : ManagedContainerConflict → Bool
hash_matches_different_root c = hash_matches_workspace c && not (root_matches_workspace c)

abbrev hash_collision_error : ManagedContainerConflict → Error
hash_collision_error c =
    hash_collision c.container_name c.workspace.hash12 c.identity.canonical_git_root
      c.workspace.canonical_git_root

abbrev different_root_error : ManagedContainerConflict → Error
different_root_error c =
    different_root c.workspace.container_name c.container_kind c.container_name
      c.identity.canonical_git_root c.workspace.canonical_git_root

abbrev same_root_error : ManagedContainerConflict → Option SessionFailure → Error
same_root_error c (some failure) =
    failure_conflict_error c.workspace c.container_kind c.container_name failure
same_root_error c none =
    if not (hash_matches_workspace c)
    then failure_conflict_error c.workspace c.container_kind c.container_name drifted_git_root_hash
    else if not (has_volume_mount_destination c.inspect.mounts required_nix_cache_mount_destination)
    then failure_conflict_error c.workspace c.container_kind c.container_name missing_cache_mount
    else generic_failed_session_error c.workspace c.container_name

unfoldable pub classify : ManagedContainerConflict → Error
classify c =
    if hash_matches_different_root c
    then hash_collision_error c
    else if root_matches_workspace c
    then same_root_error c c.same_root_failure
    else different_root_error c

abbrev pub same_root_failure_of : SessionLabelReport → Option SessionFailure
same_root_failure_of report =
    or_option (error_of report.required) (error_of (report_attach_labels report))

abbrev pub classify_identity :
    WorkspaceIdentity
    → String
    → AgentboxContainerKind
    → PodmanContainerInspect
    → Option SessionFailure
    → Result SessionFailure SessionIdentityLabels
    → Error
classify_identity workspace name kind inspect failures (err failure) =
    failure_conflict_error workspace kind name failure
classify_identity workspace name kind inspect failures (ok identity) = classify (record {
  workspace = workspace;
  container_name = name;
  container_kind = kind;
  identity = identity;
  same_root_failure = failures;
  inspect = inspect;
})

module _ (sha256 : String → List ℕ) where
  abbrev classify_kind :
      WorkspaceIdentity → String → PodmanContainerInspect → Option AgentboxContainerKind → Error
  classify_kind workspace expected_name inspect none =
      unmanaged_container_conflict workspace.container_name workspace.canonical_git_root
  classify_kind workspace expected_name inspect (some kind) =
      let report = from_metadata sha256 inspect.labels in
      classify_identity workspace (logical_name_or inspect.labels expected_name) kind inspect
        (same_root_failure_of report) report.identity

  unfoldable pub classify_named_container_conflict :
      WorkspaceIdentity → String → PodmanContainerInspect → Error
  unfolding classify from_metadata
  classify_named_container_conflict workspace expected_name inspect =
      classify_kind workspace expected_name inspect
        (agentbox_container_kind_from_labels inspect.labels)

  abbrev classify_inspected :
      WorkspaceIdentity → String → Error → Result Error PodmanContainerInspect → Error
  classify_inspected workspace name fallback (err _) = fallback
  classify_inspected workspace name fallback (ok inspect) =
      classify_named_container_conflict workspace name inspect

  -- The fallback is the caller's function, applied to the error of the creation.
  unfoldable pub classify_create_error_or_else :
      (String → Result Error PodmanContainerInspect)
      → WorkspaceIdentity
      → Option String
      → (fallback : Error) → Error
  classify_create_error_or_else inspect_one workspace logical_name fallback =
      classify_inspected workspace (unwrap_or logical_name workspace.container_name) fallback
        (inspect_one workspace.container_name)

  abbrev running_existing_resource_error :
      WorkspaceIdentity → SessionRecord → AgentboxContainerKind → Error
  running_existing_resource_error workspace session managed =
      already_running managed session.container_name workspace.canonical_git_root
        workspace.requested_target
  running_existing_resource_error workspace session run =
      already_running run session.container_name workspace.canonical_git_root
        (unwrap_or (stable_id session) session.container_name)

  abbrev existing_status_error :
      (String → Result Error PodmanContainerInspect)
      → WorkspaceIdentity
      → SessionRecord
      → SessionStatus
      → Error
  existing_status_error inspect_one workspace session duplicate =
      duplicate_managed_sessions workspace.canonical_git_root
  existing_status_error inspect_one workspace session running =
      running_existing_resource_error workspace session session.container_kind
  existing_status_error inspect_one workspace session orphaned =
      orphaned_managed_session workspace.canonical_git_root session.container_name
  existing_status_error inspect_one workspace session (failed (some failure)) =
      agentbox_container_requires_action session.container_kind workspace.canonical_git_root
        session.container_name failure
  existing_status_error inspect_one workspace session (failed none) =
      classify_inspected workspace session.container_name
        (generic_failed_session_error workspace session.container_name)
        (inspect_one session.container_name)

  unfoldable pub existing_session_error :
      (String → Result Error PodmanContainerInspect) → WorkspaceIdentity → SessionRecord → Error
  existing_session_error inspect_one workspace session =
      existing_status_error inspect_one workspace session session.status
