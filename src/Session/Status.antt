-- ===== src/Session/Status.antt =====
-- src/session/status.rs, status/git_root.rs, endpoint.rs and mounts.rs: how the status of a container
-- is derived from its labels, its published port, its mounts and the host.
pub mod Laws
use agentbox_nix.Shared.{
  ℕ, String, Bool, true, false, not, ◌&&◌, ◌||◌, Option, none, some, List, any, Result, ok, err,
  ◌>>=◌, map_err, error_of, to_option, ok_or, ◌==◌, string_eq, if◌then◌else◌,
}
use agentbox_nix.Errors.{
  Error, no_published_attach_port, SessionFailure, missing_cache_mount, not_running,
  missing_published_attach_port,
}
use agentbox_nix.Runtime.{AttachEndpoint, tcp_port_key}
use agentbox_nix.Paths.{FilePath, path_eq}
use agentbox_nix.Podman.{
  PodmanContainerMount, PodmanContainerInspect, Ports, is_volume, published_attach_endpoint,
}
use agentbox_nix.Metadata.{Labels}
use agentbox_nix.Session.Record.{SessionStatus, running, orphaned, duplicate, failed}
use agentbox_nix.Session.Labels.{
  RequiredSessionLabels, AttachLabels, SessionLabelReport, report_attach_labels,
  attach_from_session_labels, into_error,
}

-- `trait GitRootProbe`: what the host says of a directory.
pub record GitRootProbe : Type 0 where
  pub canonicalize : FilePath → Option FilePath
  pub is_directory : FilePath → Bool
  pub has_git_marker : FilePath → Bool
  pub rev_parse_show_toplevel : FilePath → Option FilePath

abbrev resolves_elsewhere : FilePath → Option FilePath → Bool
resolves_elsewhere root none = true
resolves_elsewhere root (some resolved) = not (path_eq resolved root)

abbrev toplevel_moved : GitRootProbe → FilePath → Option FilePath → Bool
toplevel_moved probe root none = true
toplevel_moved probe root (some resolved) = resolves_elsewhere root (probe.canonicalize resolved)

-- The part after the canonical root is known to be the root itself.
abbrev unmarked_is_orphaned : GitRootProbe → FilePath → Bool
unmarked_is_orphaned probe root =
    if not (probe.is_directory root)
    then true
    else if probe.has_git_marker root
    then false
    else toplevel_moved probe root (probe.rev_parse_show_toplevel root)

abbrev root_is_orphaned : GitRootProbe → FilePath → Option FilePath → Bool
root_is_orphaned probe git_root none = true
root_is_orphaned probe git_root (some canonical) =
    if path_eq canonical git_root then unmarked_is_orphaned probe canonical else true

unfoldable pub git_root_is_orphaned : FilePath → GitRootProbe → Bool
git_root_is_orphaned git_root probe = root_is_orphaned probe git_root (probe.canonicalize git_root)

unfoldable pub has_volume_mount_destination : List PodmanContainerMount → String → Bool
has_volume_mount_destination mounts destination =
    any (λ mount. is_volume mount.kind && mount.destination == destination) mounts

abbrev pub required_nix_cache_mount_destination : String
required_nix_cache_mount_destination = "/home/user"

unfoldable pub derive_attach_endpoint : AttachLabels → Ports → Result Error AttachEndpoint
derive_attach_endpoint attach_labels ports = do
  port ← published_attach_endpoint ports attach_labels.attach
  ok_or port (no_published_attach_port (tcp_port_key attach_labels.attach))

-- `AttachEndpointReport` is the result that it holds.
abbrev pub AttachEndpointReport : Type 0
AttachEndpointReport = Result SessionFailure AttachEndpoint

-- `AttachEndpointReport::from_label_report_and_inspect`
unfoldable pub endpoint_report : SessionLabelReport → PodmanContainerInspect → AttachEndpointReport
unfolding derive_attach_endpoint
endpoint_report report inspect = do
  attach_labels ← report_attach_labels report
  map_err (λ _. missing_published_attach_port) (derive_attach_endpoint attach_labels inspect.ports)

unfoldable pub discover_attach_endpoint_from_inspect :
    PodmanContainerInspect → Result Error AttachEndpoint
unfolding derive_attach_endpoint
discover_attach_endpoint_from_inspect inspect = do
  attach_labels ← map_err into_error (attach_from_session_labels inspect.labels)
  derive_attach_endpoint attach_labels inspect.ports

pub record SessionStatusInput : Type 0 where
  pub label_report : SessionLabelReport
  pub attach_endpoint : AttachEndpointReport
  pub container_running : Bool
  pub mounts : List PodmanContainerMount
  pub git_root_probe : GitRootProbe

abbrev live_status : SessionStatusInput → RequiredSessionLabels → SessionStatus
live_status input required =
    if not (has_volume_mount_destination input.mounts required_nix_cache_mount_destination)
    then failed (some missing_cache_mount)
    else if not input.container_running
    then failed (some not_running)
    else if git_root_is_orphaned required.identity.canonical_git_root input.git_root_probe
    then orphaned
    else running

abbrev endpoint_status :
    SessionStatusInput → RequiredSessionLabels → Option SessionFailure → SessionStatus
endpoint_status input required (some failure) = failed (some failure)
endpoint_status input required none = live_status input required

abbrev labelled_status :
    SessionStatusInput → Result SessionFailure RequiredSessionLabels → SessionStatus
labelled_status input (err failure) = failed (some failure)
labelled_status input (ok required) =
    endpoint_status input required (error_of input.attach_endpoint)

unfoldable pub derive_status : SessionStatusInput → SessionStatus
derive_status input = labelled_status input input.label_report.required
