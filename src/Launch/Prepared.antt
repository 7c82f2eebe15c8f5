-- ===== src/Launch/Prepared.antt =====
-- The specification that `prepare_runtime_launch` of src/commands/container_launch/mod.rs passes on: that
-- of the run, with the environment, mounts and labels that are added to it. What the detection of
-- Wayland, of commit signing and of known hosts found is an argument.
pub mod Written
use Prim.Native.String.{◌++◌ as ◌<>◌}
use agentbox_nix.Shared.{
  String, Bool, true, false, Option, none, some, List, [], ◌∷◌, ◌++◌, if◌then◌else◌,
}
use agentbox_nix.Errors.{RuntimeKind}
use agentbox_nix.Runtime.{as_str}
use agentbox_nix.Config.{ResourceLimits, stored_or_zero}
use agentbox_nix.Metadata.{Json, insert}
use agentbox_nix.Metadata.Label
use agentbox_nix.Workspace.{WorkspaceIdentity}
use agentbox_nix.Launch.Spec.{
  RuntimeMount, bind_mount, Environment, RuntimeInvocation, RuntimeRunSpec, RuntimeRunMode,
  managed_session, transient_server, foreground, insert_create_label, run_spec,
}
use agentbox_nix.Launch.Existing.{RuntimeLaunchPolicy}

-- `runtime_package_version_label` of src/metadata/mod.rs
abbrev pub runtime_package_version_label : RuntimeKind → String
runtime_package_version_label runtime = "io.agentbox." <> (as_str runtime <> ".version")

abbrev pub add_create_mount : RuntimeMount → RuntimeRunSpec → RuntimeRunSpec
add_create_mount mount spec = record spec {
  create = record spec.create { mounts = spec.create.mounts ++ mount ∷ [] };
}

-- `BTreeMap::extend`
abbrev pub extend : Environment → Environment → Environment
extend [] env = env
extend ((name, value) ∷ entries) env = extend entries (insert name value env)

abbrev pub extend_create_default_env : Environment → RuntimeRunSpec → RuntimeRunSpec
extend_create_default_env entries spec = record spec {
  create = record spec.create { default_env = extend entries spec.create.default_env };
}

-- `CONTAINER_WAYLAND_DISPLAY` of src/wayland.rs
abbrev pub container_wayland_display : String
container_wayland_display = "/run/agentbox/wayland.sock"

-- The host's socket, if Wayland was detected.
abbrev pub apply_wayland_passthrough : Option String → RuntimeRunSpec → RuntimeRunSpec
apply_wayland_passthrough none spec = spec
apply_wayland_passthrough (some host_socket) spec =
    extend_create_default_env (("WAYLAND_DISPLAY", container_wayland_display) ∷ [])
      (add_create_mount (bind_mount host_socket container_wayland_display) spec)

abbrev pub add_mounts : List RuntimeMount → RuntimeRunSpec → RuntimeRunSpec
add_mounts [] spec = spec
add_mounts (mount ∷ mounts) spec = add_mounts mounts (add_create_mount mount spec)

pub record SshPassthrough : Type 0 where
  -- `SshCommitSigningPassthrough`
  pub mounts : List RuntimeMount
  pub env : Environment
  -- `SshKnownHostsPassthrough`
  pub known_hosts : Option (RuntimeMount × Environment)

abbrev pub apply_known_hosts : Option (RuntimeMount × Environment) → RuntimeRunSpec → RuntimeRunSpec
apply_known_hosts none spec = spec
apply_known_hosts (some (mount, env)) spec =
    extend_create_default_env env (add_create_mount mount spec)

-- `SshPassthrough::apply_to`
abbrev pub apply_ssh_passthrough : SshPassthrough → RuntimeRunSpec → RuntimeRunSpec
apply_ssh_passthrough ssh spec =
    apply_known_hosts ssh.known_hosts
      (extend_create_default_env ssh.env (add_mounts ssh.mounts spec))

abbrev pub insert_version : RuntimeKind → Option String → RuntimeRunSpec → RuntimeRunSpec
insert_version runtime none spec = spec
insert_version runtime (some version) spec =
    insert_create_label (runtime_package_version_label runtime) version spec

unfoldable pub record_runtime_image_version :
    RuntimeKind → Option String → RuntimeLaunchPolicy → RuntimeRunSpec → RuntimeRunSpec
record_runtime_image_version runtime version policy spec =
    if policy.record_runtime_image_version then insert_version runtime version spec else spec

abbrev pub limits_for_mode : RuntimeRunMode → RuntimeRunSpec → RuntimeRunSpec
limits_for_mode managed_session spec =
    let stored = stored_or_zero spec.create.resource_limits in
    insert_create_label Label.memory stored.memory (insert_create_label Label.cpus stored.cpus spec)
limits_for_mode transient_server spec = spec
limits_for_mode foreground spec = spec

unfoldable pub record_managed_resource_limits :
    RuntimeLaunchPolicy → RuntimeRunSpec → RuntimeRunSpec
record_managed_resource_limits policy spec = limits_for_mode policy.run_mode spec

-- What the preparation found on the host.
pub record LaunchFindings : Type 0 where
  pub host_nix_mounts : List RuntimeMount
  pub runtime_mounts : List RuntimeMount
  pub runtime_environment : Environment
  pub runtime_image_version : Option String
  pub wayland : Option String
  pub ssh : SshPassthrough

-- `prepare_runtime_launch`, once its preparation has succeeded.
unfoldable pub prepared_run_spec :
    String
    → Json
    → RuntimeKind
    → RuntimeLaunchPolicy
    → WorkspaceIdentity
    → LaunchFindings
    → RuntimeInvocation
    → (server_args : List String) → ResourceLimits
    → RuntimeRunSpec
unfolding record_runtime_image_version record_managed_resource_limits
prepared_run_spec context_hash json runtime policy workspace found invocation server_args limits =
    let spec =
      run_spec context_hash json runtime policy.run_mode workspace found.host_nix_mounts
        found.runtime_mounts invocation server_args limits in
    let spec = extend_create_default_env found.runtime_environment spec in
    let spec = apply_wayland_passthrough found.wayland spec in
    let spec = apply_ssh_passthrough found.ssh spec in
    let spec = record_runtime_image_version runtime found.runtime_image_version policy spec in
    record_managed_resource_limits policy spec
