-- ===== src/Errors.antt =====
-- src/error.rs: the errors of the program. Each message that the source formats is a constructor
-- with the message's arguments; the wording is not kept. The enumerations that messages mention
-- stand here too.
use agentbox_nix.Shared.{ℕ, String, Option, List}

-- `RuntimeKind` of src/runtime/kind.rs
pub data RuntimeKind : Type 0 where
  opencode codex : RuntimeKind

-- `AgentboxContainerKind` of src/metadata/mod.rs
pub data AgentboxContainerKind : Type 0 where
  managed run : AgentboxContainerKind

-- `SessionFailure` of src/session/status/failure.rs
pub data SessionFailure : Type 0 where
  missing_required_labels drifted_git_root_hash missing_cache_mount not_running : SessionFailure
  unsupported_runtime_label malformed_launch_directory malformed_endpoint_labels : SessionFailure
  missing_published_attach_port : SessionFailure

-- `StableIdTargetAction` of src/session/target/stable_id.rs
pub data StableIdTargetAction : Type 0 where
  stop restart : StableIdTargetAction

-- `AttachLabelError` of src/session/labels/attach.rs
mutual
  pub data AttachLabelError : Type 0 where
    missing_label : (label : String) → AttachLabelError
    runtime_error : Error → AttachLabelError
    malformed_container_port : (value : String) → AttachLabelError
    attach_scheme_mismatch : RuntimeKind → (actual expected : String) → AttachLabelError
    container_port_mismatch : RuntimeKind → (actual expected : ℕ) → AttachLabelError
    container_listen_ip_mismatch : RuntimeKind → (actual expected : String) → AttachLabelError

  -- Paths, container names and ids are texts.
  pub data Error : Type 0 where
    -- src/error.rs
    escaped_git_target : (target git_root : String) → Error
    agentbox_container_requires_action :
        AgentboxContainerKind → (git_root container : String) → SessionFailure → Error
    duplicate_managed_sessions : (git_root : String) → Error
    duplicate_agentbox_containers : (git_root : String) → Error
    orphaned_managed_session : (git_root container : String) → Error
    failed_managed_session : (git_root container : String) → Error
    -- an error of the operating system, of Podman or of git
    io_error : (message : String) → Error
    -- src/runtime/kind.rs
    empty_runtime_label : Error
    unsupported_runtime : (value : String) → Error
    -- src/session/labels/attach.rs, other than a runtime error
    attach_label : AttachLabelError → Error
    -- src/podman/model/network.rs and src/session/endpoint.rs
    malformed_host_port : (value : String) → Error
    no_published_attach_port : (port_key : String) → Error
    -- src/session/discovery/scope.rs
    identity_collision : (git_root : String) → (roots : List String) → Error
    -- src/session/selection.rs
    empty_stable_id_prefix : Error
    no_id_matches_prefix : (noun prefix : String) → Error
    multiple_ids_match_prefix : (prefix : String) → (ids : List String) → Error
    -- src/session/connectable.rs
    not_running_session : (git_root container : String) → Option String → (target : String) → Error
    -- src/session/restartable.rs
    transient_not_restartable : (container target : String) → Error
    not_a_managed_session : (target : String) → Error
    restart_without_git_root : (container : String) → Error
    restart_without_runtime : (container : String) → Error
    restart_without_launch_directory : (container : String) → Error
    restart_malformed_server_args : (container : String) → Error
    -- src/session/record.rs
    malformed_server_args : (value : String) → Error
    malformed_cpu_limit : Error
    malformed_memory_limit : Error
    -- src/session/target/stable_id.rs
    multiple_git_roots : (id : String) → StableIdTargetAction → Error
    unrooted_matches : (id : String) → StableIdTargetAction → Error
    no_recoverable_git_root : (id : String) → StableIdTargetAction → Error
    -- src/session/target/restart.rs
    restart_target_changed : (locked current : String) → Error
    restart_target_changed_away : (locked : String) → Error
    no_session_matches_restart_target : (target : String) → Error
    restart_target_matches_many : (target : String) → (count : ℕ) → Error
    -- src/session/target/stop.rs
    no_agentbox_container : (git_root : String) → Error
    duplicates_need_force : (target : String) → Error
    -- src/session/target/health.rs
    no_running_session : (git_root : String) → Error
    many_sessions_of_workspace : (git_root : String) → Error
    many_sessions_of_id : (id : String) → Error
    only_running_probed : (target : String) → Error
    -- src/session/conflict.rs
    hash_collision : (container hash stored_root root : String) → Error
    different_root :
        (name : String) → AgentboxContainerKind → (container stored_root root : String) → Error
    unmanaged_container_conflict : (container git_root : String) → Error
    already_running : AgentboxContainerKind → (container git_root target : String) → Error
    -- src/commands/server_readiness
    server_exited : (container git_root : String) → RuntimeKind → Error
    transient_without_port : (port_key : String) → Error
    server_unreachable : (container git_root : String) → (last_error : Option String) → Error
    -- src/error.rs, `ExitCode` and `ExitCodeWithMessage`
    exit_code : (code : ℕ) → Error
    exit_code_with_message : (code : ℕ) → (error cleanup_error : Error) → Error
    -- src/commands/container_cleanup.rs
    combined : (error cleanup_error : Error) → Error
    transient_not_cleaned_up : (container : String) → Error
    -- src/commands/launch_policy.rs, with the logs that Podman has, or its error
    with_container_logs : (container : String) → Error → (logs : Option String) → Error
    -- src/commands/detached_server.rs and transient_run.rs
    readiness_interrupted : Error
    run_interrupted : (container git_root : String) → Error
    transient_start_failed : (container git_root : String) → Error → Error
    host_client_failed : RuntimeKind → Error
    -- src/runtime/host_state.rs
    relative_environment_path : (variable path : String) → Error
    environment_path_not_utf8 : (variable : String) → Error
    -- src/preflight/check.rs and mounts.rs
    missing_tool : (tool : String) → Error
    missing_nix_daemon_socket : Error
    missing_etc_nix : Error
    missing_nix_conf : Error
    missing_custom_conf_target : Error
    missing_host_state_snapshot : (key : String) → Error
    cannot_locate_host_state : RuntimeKind → (product_name description : String) → Error
    missing_host_state : RuntimeKind → (product_name description source : String) → Error
    host_state_not_a_directory : (product_name description source : String) → Error
    host_state_not_accessible : (product_name description source : String) → Error
    -- src/commands/runtime/image_lifecycle.rs
    default_image_not_built : (image workspace_root : String) → Error → Error
    -- src/commands/restart.rs
    launch_directory_unusable : (directory container : String) → Error → Error
    launch_directory_moved : (directory container git_root locked : String) → Error
    restart_stop_failed : (container : String) → Error
