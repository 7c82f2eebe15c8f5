-- ===== src/Preflight/Snapshot.antt =====
-- src/preflight/snapshot: what is looked up on the host before a launch. The probes are parameters.
use agentbox_nix.Shared.{
  String, Bool, false, ◌||◌, Option, none, some, List, [], ◌∷◌, map, Result, ok, err, ◌==◌,
  string_eq, if◌then◌else◌,
}
use agentbox_nix.Errors.{Error, RuntimeKind}
use agentbox_nix.Paths.{FilePath}
use agentbox_nix.Launch.Spec.{RuntimeRunMode}
use agentbox_nix.Preflight.HostState.{
  RuntimeHostStateMount, RuntimeHostStateSourceResolution, Variables, resolve_source, snapshot_key,
  host_state_mounts,
}

pub record HostPathStatus : Type 0 where
  pub exists : Bool
  pub is_directory : Bool
  pub readable : Bool
  pub writable : Bool
  pub searchable : Bool

pub record PreflightHost : Type 0 where
  pub test_fixtures_enabled : Bool
  pub command_exists : String → Bool
  pub path_from_environment : Variables
  pub which : String → Option FilePath
  pub unix_socket_exists : FilePath → Bool
  pub symlink_or_path_exists : FilePath → Bool
  pub file_is_readable : FilePath → Bool
  pub resolve_path : FilePath → FilePath
  pub path_reaches_mount_root : FilePath → FilePath → Bool
  pub path_status : FilePath → HostPathStatus

pub record HostDirectoryPreflightSnapshot : Type 0 where
  pub source : Option FilePath
  pub source_environment_variable : Option String
  pub source_error : Option Error
  pub status : HostPathStatus

abbrev pub SnapshotMap : Type 0
SnapshotMap = List (String × HostDirectoryPreflightSnapshot)

pub record HostPreflightSnapshot : Type 0 where
  pub has_git : Bool
  pub has_podman : Bool
  pub runtime_state : SnapshotMap

pub record NixCustomConfPreflightSnapshot : Type 0 where
  pub present : Bool
  pub has_readable_target : Bool
  pub needs_static_mount : Bool

pub record NixConfigPreflightSnapshot : Type 0 where
  pub has_etc_nix_mount : Bool
  pub has_readable_nix_conf : Bool
  pub custom_conf : NixCustomConfPreflightSnapshot

pub record NixPreflightSnapshot : Type 0 where
  pub has_daemon_socket : Bool
  pub client_source : Option FilePath
  pub config : NixConfigPreflightSnapshot

pub record PreflightSnapshot : Type 0 where
  pub host : HostPreflightSnapshot
  pub nix : NixPreflightSnapshot

abbrev no_status : HostPathStatus
no_status = record {
  exists = false;
  is_directory = false;
  readable = false;
  writable = false;
  searchable = false;
}

abbrev status_of : PreflightHost → Option FilePath → HostPathStatus
status_of host none = no_status
status_of host (some path) = host.path_status path

-- `detect_with` and `detect_error`
abbrev pub directory_snapshot :
    PreflightHost → Result Error RuntimeHostStateSourceResolution → HostDirectoryPreflightSnapshot
directory_snapshot host (err error) = record {
  source = none;
  source_environment_variable = none;
  source_error = some error;
  status = no_status;
}
directory_snapshot host (ok found) = record {
  source = found.source;
  source_environment_variable = found.source_environment_variable;
  source_error = none;
  status = status_of host found.source;
}

abbrev pub mount_snapshot : PreflightHost → RuntimeHostStateMount → HostDirectoryPreflightSnapshot
mount_snapshot host mount =
    directory_snapshot host (resolve_source mount.source host.path_from_environment)

-- `detect_runtime_state`; the keys of a runtime's mounts differ.
abbrev pub detect_runtime_state : PreflightHost → List RuntimeHostStateMount → SnapshotMap
detect_runtime_state host mounts =
    map (λ mount. (snapshot_key mount.destination, mount_snapshot host mount)) mounts

abbrev pub nix_daemon_socket_path : FilePath
nix_daemon_socket_path = "/nix/var/nix/daemon-socket/socket"

abbrev pub etc_nix : FilePath
etc_nix = "/etc/nix"

abbrev pub etc_static_nix : FilePath
etc_static_nix = "/etc/static/nix"

abbrev pub nix_custom_conf_path : FilePath
nix_custom_conf_path = "/etc/nix/nix.custom.conf"

abbrev pub detect_custom_conf : PreflightHost → NixCustomConfPreflightSnapshot
detect_custom_conf host = record {
  present = host.symlink_or_path_exists nix_custom_conf_path;
  has_readable_target = host.file_is_readable (host.resolve_path nix_custom_conf_path);
  needs_static_mount = host.path_reaches_mount_root nix_custom_conf_path etc_static_nix;
}

abbrev pub detect_nix_config : PreflightHost → NixConfigPreflightSnapshot
detect_nix_config host = record {
  has_etc_nix_mount = host.test_fixtures_enabled || host.symlink_or_path_exists etc_nix;
  has_readable_nix_conf = host.test_fixtures_enabled || host.file_is_readable "/etc/nix/nix.conf";
  custom_conf = detect_custom_conf host;
}

abbrev pub resolve_nix_client_source : PreflightHost → Option FilePath
resolve_nix_client_source host =
    if host.test_fixtures_enabled then some "/usr/bin/nix" else host.which "nix"

abbrev pub detect_nix : PreflightHost → NixPreflightSnapshot
detect_nix host = record {
  has_daemon_socket = host.test_fixtures_enabled || host.unix_socket_exists nix_daemon_socket_path;
  client_source = resolve_nix_client_source host;
  config = detect_nix_config host;
}

-- `PreflightSnapshot::detect_with`
unfoldable pub detect_with : RuntimeKind → RuntimeRunMode → PreflightHost → PreflightSnapshot
detect_with runtime mode host = record {
  host = record {
    has_git = host.test_fixtures_enabled || host.command_exists "git";
    has_podman = host.command_exists "podman";
    runtime_state = detect_runtime_state host (host_state_mounts runtime mode);
  };
  nix = detect_nix host;
}

-- `BTreeMap::get`
unfoldable pub get_snapshot : SnapshotMap → String → Option HostDirectoryPreflightSnapshot
get_snapshot [] key = none
get_snapshot ((k, state) ∷ states) key = if k == key then some state else get_snapshot states key
