-- ===== src/Podman.antt =====
-- src/podman/model: what Podman reports, with the fields that the modelled code reads. The calls of
-- Podman and the JSON are outside the model.
use agentbox_nix.Shared.{
  ℕ, String, Bool, true, false, not, Option, none, some, List, [], ◌∷◌, find, or_option,
  filter_option, map_option, unwrap_or, is_some, Result, ok, err, ◌>>=◌, ◌==◌, string_eq,
  if◌then◌else◌,
}
use agentbox_nix.Text.{is_blank, parse_unsigned, u16_max}
use agentbox_nix.Errors.{Error, malformed_host_port}
use agentbox_nix.Runtime.{RuntimeAttachSpec, AttachEndpoint, default_host_attach_ip, tcp_port_key}
use agentbox_nix.Metadata.{Labels}

pub record PodmanPsContainer : Type 0 where
  pub id : String
  pub names : Option (List String)
  pub labels : Labels

pub data PodmanContainerMountKind : Type 0 where
  bind volume : PodmanContainerMountKind
  other : String → PodmanContainerMountKind

pub record PodmanContainerMount : Type 0 where
  pub kind : PodmanContainerMountKind
  pub name : Option String
  pub source : String
  pub destination : String

pub record PodmanPortBinding : Type 0 where
  pub host_ip : Option String
  pub host_port : Option String

-- The map from port keys to bindings; a key may have no bindings.
abbrev pub Ports : Type 0
Ports = List (String × Option (List PodmanPortBinding))

pub record PodmanContainerInspect : Type 0 where
  pub id : String
  pub image_name : String
  pub running : Bool
  pub labels : Labels
  pub mounts : List PodmanContainerMount
  pub ports : Ports

pub record PodmanPublishedPort : Type 0 where
  pub host_ip : String
  pub host_port : ℕ

abbrev pub is_volume : PodmanContainerMountKind → Bool
is_volume volume = true
is_volume bind = false
is_volume (other _) = false

abbrev non_empty : Option String → Option String
non_empty value = filter_option (λ s. not (s == "")) value

unfoldable pub named_volume_name : PodmanContainerMount → Option String
named_volume_name mount =
    if not (is_volume mount.kind)
    then none
    else or_option (non_empty mount.name) (non_empty (some mount.source))

unfoldable pub get_ports : Ports → String → Option (List PodmanPortBinding)
get_ports [] key = none
get_ports ((k, bindings) ∷ ports) key = if k == key then bindings else get_ports ports key

-- The first binding with a host port.
abbrev pub first_bound : Option (List PodmanPortBinding) → Option PodmanPortBinding
first_bound none = none
first_bound (some bindings) = find (λ binding. is_some binding.host_port) bindings

abbrev pub host_ip_or_default : Option String → String
host_ip_or_default host_ip =
    unwrap_or (filter_option (λ ip. not (is_blank ip)) host_ip) default_host_attach_ip

abbrev pub publish : PodmanPortBinding → Option String → Result Error (Option PodmanPublishedPort)
publish binding none = ok none
publish binding (some port) = elim (parse_unsigned port u16_max) [
  | none ↦ err (malformed_host_port port)
  | some host_port ↦
      ok (some (record { host_ip = host_ip_or_default binding.host_ip; host_port = host_port }))
]

abbrev pub publish_found : Option PodmanPortBinding → Result Error (Option PodmanPublishedPort)
publish_found none = ok none
publish_found (some binding) = publish binding binding.host_port

unfoldable pub published_host_port : Ports → String → Result Error (Option PodmanPublishedPort)
unfolding get_ports
published_host_port ports port_key = publish_found (first_bound (get_ports ports port_key))

abbrev endpoint_of : RuntimeAttachSpec → PodmanPublishedPort → AttachEndpoint
endpoint_of attach port = record {
  scheme = attach.scheme;
  host_ip = port.host_ip;
  host_port = port.host_port;
}

-- `published_attach_endpoint`, by `published_tcp_host_port`
unfoldable pub published_attach_endpoint :
    Ports → RuntimeAttachSpec → Result Error (Option AttachEndpoint)
unfolding published_host_port tcp_port_key
published_attach_endpoint ports attach = do
  port ← published_host_port ports (tcp_port_key attach)
  ok (map_option (endpoint_of attach) port)
