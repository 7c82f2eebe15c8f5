-- ===== src/Launch/Spec.antt =====
-- src/runtime/spec.rs and command.rs: what a container is created with. The hash of the embedded image
-- context and the JSON of a label are parameters.
use Prim.Native.String.{◌++◌ as ◌<>◌}
use agentbox_nix.Shared.{String, Bool, true, false, List, [], ◌∷◌, ◌++◌, map, if◌then◌else◌}
use agentbox_nix.Text.{decimal}
use agentbox_nix.Errors.{RuntimeKind, opencode, codex}
use agentbox_nix.Runtime.{RuntimeAttachSpec, attach_spec, default_host_attach_ip}
use agentbox_nix.Config.{ResourceLimits}
use agentbox_nix.Metadata.{
  Labels, insert, Json, label_input, managed_session_labels, transient_run_labels,
}
use agentbox_nix.Paths.{FilePath}
use agentbox_nix.Workspace.{WorkspaceIdentity}
use agentbox_nix.Clean.Image.{default_image}

pub data RuntimeMountKind : Type 0 where
  bind volume : RuntimeMountKind

pub record RuntimeMount : Type 0 where
  pub kind : RuntimeMountKind
  pub source : String
  pub destination : String
  pub read_only : Bool

abbrev pub bind_mount : String → String → RuntimeMount
bind_mount source destination = record {
  kind = bind;
  source = source;
  destination = destination;
  read_only = false;
}

abbrev pub read_only_bind : String → String → RuntimeMount
read_only_bind source destination = record {
  kind = bind;
  source = source;
  destination = destination;
  read_only = true;
}

abbrev pub volume_mount : String → String → RuntimeMount
volume_mount source destination = record {
  kind = volume;
  source = source;
  destination = destination;
  read_only = false;
}

abbrev pub is_volume : RuntimeMountKind → Bool
is_volume bind = false
is_volume volume = true

pub record RuntimeInvocation : Type 0 where
  pub argv : List String
  pub workdir : FilePath

abbrev pub Environment : Type 0
Environment = List (String × String)

pub record RuntimeCreateSpec : Type 0 where
  pub image : String
  pub labels : Labels
  pub mounts : List RuntimeMount
  pub command : List String
  pub default_env : Environment
  pub network_enabled : Bool
  pub published_ports : List String
  pub resource_limits : ResourceLimits

pub record RuntimeRunSpec : Type 0 where
  pub create : RuntimeCreateSpec
  pub workdir : FilePath

-- `insert_create_label`
unfoldable pub insert_create_label : String → String → RuntimeRunSpec → RuntimeRunSpec
unfolding insert
insert_create_label name value spec = record spec {
  create = record spec.create { labels = insert name value spec.create.labels };
}

pub data RuntimeRunMode : Type 0 where
  managed_session transient_server foreground : RuntimeRunMode

abbrev pub publishes_attach_endpoint : RuntimeRunMode → Bool
publishes_attach_endpoint managed_session = true
publishes_attach_endpoint transient_server = true
publishes_attach_endpoint foreground = false

-- `RuntimeAttachSpec::container_listen_endpoint`
abbrev pub container_listen_endpoint : RuntimeAttachSpec → String
container_listen_endpoint attach =
    attach.scheme
    <> ("://" <> (attach.container_listen_ip <> (":" <> decimal attach.container_port)))

-- `RuntimeAttachSpec::published_port`
abbrev pub published_port : RuntimeAttachSpec → String → String
published_port attach host_ip = host_ip <> ("::" <> decimal attach.container_port)

-- src/runtime/command.rs
pub data ServerCommandArg : Type 0 where
  literal : String → ServerCommandArg
  container_listen_ip container_port listen_endpoint : ServerCommandArg

abbrev pub render_arg : RuntimeAttachSpec → ServerCommandArg → String
render_arg attach (literal value) = value
render_arg attach container_listen_ip = attach.container_listen_ip
render_arg attach container_port = decimal attach.container_port
render_arg attach listen_endpoint = container_listen_endpoint attach

-- `SERVER_COMMAND` of the profiles
abbrev pub server_command_template : RuntimeKind → List ServerCommandArg
server_command_template opencode =
    literal "opencode"
    ∷ literal "serve"
    ∷ literal "--hostname"
    ∷ container_listen_ip
    ∷ literal "--port"
    ∷ container_port
    ∷ []
server_command_template codex =
    literal "codex"
    ∷ literal "--dangerously-bypass-approvals-and-sandbox"
    ∷ literal "app-server"
    ∷ literal "--listen"
    ∷ listen_endpoint
    ∷ []

-- `RuntimeKind::server_command`
unfoldable pub server_command : RuntimeKind → List String
server_command runtime = map (render_arg (attach_spec runtime)) (server_command_template runtime)

-- `RuntimeKind::default_env`, in the order of the names
abbrev pub default_env : RuntimeKind → Environment
default_env opencode =
    ("OPENCODE_CONFIG_CONTENT", "{\"autoupdate\":false}")
    ∷ ("OPENCODE_PERMISSION", "{\"*\":\"allow\"}")
    ∷ []
default_env codex = []

-- `NIX_CACHE_DESTINATION` of src/preflight.rs
abbrev pub nix_cache_destination : String
nix_cache_destination = "/home/user"

unfoldable pub runtime_mounts_for_workspace :
    WorkspaceIdentity → (host_nix_mounts runtime_mounts : List RuntimeMount) → List RuntimeMount
runtime_mounts_for_workspace workspace host_nix_mounts runtime_mounts =
    bind_mount workspace.canonical_git_root workspace.canonical_git_root
    ∷ volume_mount workspace.container_name nix_cache_destination
    ∷ (host_nix_mounts ++ runtime_mounts)

abbrev labels_for_mode :
    Json → RuntimeRunMode → WorkspaceIdentity → String → RuntimeKind → List String → Labels
labels_for_mode json managed_session workspace image runtime server_args =
    managed_session_labels json (label_input workspace image runtime server_args)
labels_for_mode json transient_server workspace image runtime server_args =
    transient_run_labels (label_input workspace image runtime server_args)
labels_for_mode json foreground workspace image runtime server_args = []

module _ (context_hash : String) (json : Json) where
  unfoldable pub create_spec :
      RuntimeKind
      → RuntimeRunMode
      → WorkspaceIdentity
      → (host_nix_mounts runtime_mounts : List RuntimeMount) → (command server_args : List String)
      → ResourceLimits
      → RuntimeCreateSpec
  create_spec runtime mode workspace host_nix_mounts runtime_mounts command server_args limits =
      let image = default_image context_hash runtime in
      record {
        image = image;
        labels = labels_for_mode json mode workspace image runtime server_args;
        mounts = runtime_mounts_for_workspace workspace host_nix_mounts runtime_mounts;
        command = command;
        default_env = default_env runtime;
        network_enabled = true;
        published_ports =
            if publishes_attach_endpoint mode
            then published_port (attach_spec runtime) default_host_attach_ip ∷ []
            else [];
        resource_limits = limits;
      }

  -- `RuntimeKind::run_spec`
  unfoldable pub run_spec :
      RuntimeKind
      → RuntimeRunMode
      → WorkspaceIdentity
      → (host_nix_mounts runtime_mounts : List RuntimeMount) → RuntimeInvocation
      → (server_args : List String) → ResourceLimits
      → RuntimeRunSpec
  unfolding create_spec
  run_spec runtime mode workspace host_nix_mounts runtime_mounts invocation server_args limits =
      record {
        create =
            create_spec runtime mode workspace host_nix_mounts runtime_mounts invocation.argv
              server_args limits;
        workdir = invocation.workdir;
      }
