-- ===== src/Preflight/Check.antt =====
-- src/preflight/check.rs and mounts.rs: a launch goes on only when the host has all that it needs.
pub mod Laws
use agentbox_nix.Shared.{
  String, Bool, true, false, not, ◌&&◌, ◌||◌, Option, none, some, List, [], ◌∷◌, ◌++◌, Result, ok,
  err, ◌>>=◌, ◌>>◌, ok_or, require, if◌then◌else◌, map, filter,
}
use agentbox_nix.Errors.{
  Error, RuntimeKind, missing_tool, missing_nix_daemon_socket, missing_etc_nix, missing_nix_conf,
  missing_custom_conf_target, missing_host_state_snapshot, cannot_locate_host_state,
  missing_host_state, host_state_not_a_directory, host_state_not_accessible,
}
use agentbox_nix.Metadata.{Labels, insert}
use agentbox_nix.Paths.{FilePath}
use agentbox_nix.Launch.Spec.{RuntimeMount, bind_mount, read_only_bind, RuntimeRunMode}
use agentbox_nix.Preflight.HostState.{
  RuntimeHostStateMount, snapshot_key, resolve_destination, container_environment_for,
  host_state_mounts,
}
use agentbox_nix.Preflight.Snapshot.{
  HostDirectoryPreflightSnapshot, HostPathStatus, SnapshotMap, PreflightSnapshot,
  NixConfigPreflightSnapshot, get_snapshot,
}

pub record PreflightReport : Type 0 where
  pub host_nix_mounts : List RuntimeMount
  pub runtime_mounts : List RuntimeMount
  pub runtime_environment : Labels

pub record ValidatedHostStateMount : Type 0 where
  pub mount : RuntimeMount
  pub environment : Option (String × String)

abbrev no_error : Option Error → Result Error (Unit {0})
no_error none = ok tt
no_error (some error) = err error

abbrev pub accessible : HostPathStatus → Bool
accessible status = status.readable && status.writable && status.searchable

-- `HostStateMountRequirement::validate`
unfoldable pub validate :
    RuntimeKind
    → RuntimeHostStateMount
    → HostDirectoryPreflightSnapshot
    → Result Error ValidatedHostStateMount
validate runtime spec state = do
  no_error state.source_error
  source ← ok_or state.source (cannot_locate_host_state runtime spec.product_name spec.description)
  destination ← resolve_destination spec.destination source state.source_environment_variable
  require state.status.exists (missing_host_state runtime spec.product_name spec.description source)
  require state.status.is_directory
      (host_state_not_a_directory spec.product_name spec.description source)
  require (accessible state.status)
      (host_state_not_accessible spec.product_name spec.description source)
  ok (record {
    mount = bind_mount source destination;
    environment = container_environment_for spec source state.source_environment_variable;
  })

pub record RuntimeHostStatePreflight : Type 0 where
  pub mounts : List RuntimeMount
  pub environment : Labels

abbrev extend : Option (String × String) → Labels → Labels
extend none environment = environment
extend (some (name, value)) environment = insert name value environment

-- The loop of `runtime_mounts`, with what it has so far.
unfoldable pub mounts_from :
    RuntimeKind
    → SnapshotMap
    → List RuntimeHostStateMount
    → RuntimeHostStatePreflight
    → Result Error RuntimeHostStatePreflight
unfolding validate
mounts_from runtime states [] preflight = ok preflight
mounts_from runtime states (spec ∷ specs) preflight = do
  state ←
      ok_or (get_snapshot states (snapshot_key spec.destination))
        (missing_host_state_snapshot (snapshot_key spec.destination))
  valid ← validate runtime spec state
  mounts_from runtime states specs (record {
    mounts = preflight.mounts ++ valid.mount ∷ [];
    environment = extend valid.environment preflight.environment;
  })

unfoldable pub runtime_mounts :
    PreflightSnapshot → RuntimeKind → RuntimeRunMode → Result Error RuntimeHostStatePreflight
unfolding mounts_from
runtime_mounts snapshot runtime mode =
    mounts_from runtime snapshot.host.runtime_state (host_state_mounts runtime mode)
      (record { mounts = []; environment = [] })

-- `HostNixMountSpec`
pub data HostNixMountSpec : Type 0 where
  same_path nix_client static_nix : String → HostNixMountSpec

abbrev nix_mount : FilePath → HostNixMountSpec → RuntimeMount
nix_mount client (same_path path) = read_only_bind path path
nix_mount client (static_nix path) = read_only_bind path path
nix_mount client (nix_client destination) = read_only_bind client destination

abbrev is_included : Bool → HostNixMountSpec → Bool
is_included include_static (same_path _) = true
is_included include_static (nix_client _) = true
is_included include_static (static_nix _) = include_static

-- `HOST_NIX_MOUNTS`
abbrev pub host_nix_mount_specs : List HostNixMountSpec
host_nix_mount_specs =
    same_path "/nix"
    ∷ nix_client "/usr/local/bin/nix"
    ∷ same_path "/etc/nix"
    ∷ static_nix "/etc/static/nix"
    ∷ []

unfoldable pub host_nix_mounts : FilePath → Bool → List RuntimeMount
host_nix_mounts client include_static =
    map (nix_mount client) (filter (is_included include_static) host_nix_mount_specs)

abbrev pub custom_conf_fine : NixConfigPreflightSnapshot → Bool
custom_conf_fine config =
    not (config.custom_conf.present && not config.custom_conf.has_readable_target)

-- `PreflightCheck::run`, with the validations in their order.
unfoldable pub check_host_prerequisites :
    PreflightSnapshot → RuntimeKind → RuntimeRunMode → Result Error PreflightReport
unfolding runtime_mounts
check_host_prerequisites snapshot runtime mode = do
  require snapshot.host.has_git (missing_tool "git")
  require snapshot.host.has_podman (missing_tool "podman")
  require snapshot.nix.has_daemon_socket missing_nix_daemon_socket
  client ← ok_or snapshot.nix.client_source (missing_tool "nix")
  require snapshot.nix.config.has_etc_nix_mount missing_etc_nix
  require snapshot.nix.config.has_readable_nix_conf missing_nix_conf
  require (custom_conf_fine snapshot.nix.config) missing_custom_conf_target
  state ← runtime_mounts snapshot runtime mode
  ok (record {
    host_nix_mounts = host_nix_mounts client snapshot.nix.config.custom_conf.needs_static_mount;
    runtime_mounts = state.mounts;
    runtime_environment = state.environment;
  })
