-- ===== src/Runtime.antt =====
-- src/runtime/kind.rs, the profile table of src/runtime/profile, and the attach contract of
-- src/runtime/spec.rs. Of a profile the name and the attach contract are kept; the images, commands
-- and host mounts of a profile are left out.
pub mod Laws
use Prim.Native.String.{◌++◌ as ◌<>◌}
use agentbox_nix.Shared.{
  ℕ, String, Bool, true, false, Option, List, [], ◌∷◌, Result, ok_or, err, find, map_option, ◌==◌,
  string_eq, if◌then◌else◌, map,
}
use agentbox_nix.Text.{is_blank, decimal}
use agentbox_nix.Errors.{
  Error, empty_runtime_label, unsupported_runtime, RuntimeKind, opencode, codex,
}

pub record RuntimeAttachSpec : Type 0 where
  pub scheme : String
  pub container_listen_ip : String
  pub container_port : ℕ

-- `AttachEndpoint`
pub record AttachEndpoint : Type 0 where
  pub scheme : String
  pub host_ip : String
  pub host_port : ℕ

pub record RuntimeProfile : Type 0 where
  pub kind : RuntimeKind
  pub name : String
  pub attach : RuntimeAttachSpec

abbrev pub default_host_attach_ip : String
default_host_attach_ip = "127.0.0.1"

abbrev container_listen_ip : String
container_listen_ip = "0.0.0.0"

abbrev pub opencode_profile : RuntimeProfile
opencode_profile = record {
  kind = opencode;
  name = "opencode";
  attach = record {
    scheme = "http";
    container_listen_ip = container_listen_ip;
    container_port = 4096;
  };
}

abbrev pub codex_profile : RuntimeProfile
codex_profile = record {
  kind = codex;
  name = "codex";
  attach = record {
    scheme = "ws";
    container_listen_ip = container_listen_ip;
    container_port = 1455;
  };
}

abbrev pub runtime_profiles : List RuntimeProfile
runtime_profiles = opencode_profile ∷ codex_profile ∷ []

-- The search of the table for a kind succeeds for every kind (`find_profile`), so it never panics.
abbrev pub runtime_profile : RuntimeKind → RuntimeProfile
runtime_profile opencode = opencode_profile
runtime_profile codex = codex_profile

unfoldable pub runtime_kind_from_name : String → Option RuntimeKind
runtime_kind_from_name value =
    map_option (λ p. p.kind) (find (λ p. p.name == value) runtime_profiles)

-- `RuntimeKind::as_str`
abbrev pub as_str : RuntimeKind → String
as_str kind = (runtime_profile kind).name

-- `RuntimeKind::attach_spec`
abbrev pub attach_spec : RuntimeKind → RuntimeAttachSpec
attach_spec kind = (runtime_profile kind).attach

-- `FromStr for RuntimeKind`
unfoldable pub parse_runtime_kind : String → Result Error RuntimeKind
unfolding runtime_kind_from_name
parse_runtime_kind value =
    if is_blank value
    then err empty_runtime_label
    else ok_or (runtime_kind_from_name value) (unsupported_runtime value)

-- `RuntimeAttachSpec::tcp_port_key`
unfoldable pub tcp_port_key : RuntimeAttachSpec → String
tcp_port_key attach = decimal attach.container_port <> "/tcp"
