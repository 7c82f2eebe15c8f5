-- ===== src/Session/Discovery/Launched.antt =====
-- The containers that agentbox launches are discovered as what they were launched as.
use agentbox_nix.Shared.{subst}
use agentbox_nix.Workspace.{hash12_chars}
use agentbox_nix.Workspace.Laws.{
  IsResolved, resolve-IsResolved, hash12_chars_digits, container_name_not_blank,
}
use agentbox_nix.Shared.{
  ℕ, String, ◌≡◌, refl, sym, ◌∙◌, ap, inl, inr, true, false, some, List, [], ◌∷◌, all, ok, arith,
  length, code, Char,
}
use agentbox_nix.Text.{is_blank, from_chars, is_ascii_hexdigit, decimal, parse_unsigned, u16_max}
use agentbox_nix.Errors.{RuntimeKind, opencode, codex, managed, run}
use agentbox_nix.Runtime.{AttachEndpoint, attach_spec, as_str}
use agentbox_nix.Runtime.Laws.{parse_runtime_kind-as_str}
use agentbox_nix.Paths.{FilePath, is_absolute, path_is_or_descendant}
use agentbox_nix.Workspace.{
  WorkspaceIdentity, Host, git_root_hash12, resolve_workspace_identity_with_git,
}
use agentbox_nix.Podman.{PodmanPsContainer, PodmanContainerInspect, published_attach_endpoint}
use agentbox_nix.Metadata.{
  Labels, Json, ManagedSessionLabelInput, label_input, transient_run_labels,
  agentbox_container_kind_from_labels,
}
use agentbox_nix.Metadata.Label
use agentbox_nix.Metadata.Laws.{required_label_value-some}
use agentbox_nix.Metadata.Written.{
  HasWritten, transient_run_labels-HasWritten, transient_run_labels_marked,
}
use agentbox_nix.Clean.Image.{default_image}
use agentbox_nix.Config.{ResourceLimits}
use agentbox_nix.Launch.Spec.{RuntimeInvocation, managed_session}
use agentbox_nix.Launch.Existing.{RuntimeLaunchPolicy}
use agentbox_nix.Launch.Prepared.{LaunchFindings, prepared_run_spec}
use agentbox_nix.Launch.Prepared.Written.{
  prepared-IsManagedWritten, written_marked, default_image-full,
}
use agentbox_nix.Session.Record.{running}
use agentbox_nix.Session.Labels.Laws.{HasRequired, HasAttach, IsMarked}
use agentbox_nix.Session.Status.{
  GitRootProbe, git_root_is_orphaned, has_volume_mount_destination,
  required_nix_cache_mount_destination,
}
use agentbox_nix.Session.Discovery.{build_session_record}
use agentbox_nix.Session.Discovery.Live.{IsLive, build_session_record_live}

-- A path with a root is not blank.
absolute_not_blank : (path : FilePath) → is_absolute path ≡ true → is_blank path ≡ false
unfolding is_absolute is_blank
absolute_not_blank String.[] h = cc
absolute_not_blank (String.◌∷◌ c s) h = ground arith

-- A text of hexadecimal digits is not blank.
hex_not_blank :
    (cs : List Char)
    → length cs ≡ 12
    → all (λ c. is_ascii_hexdigit (code c)) cs ≡ true
    → is_blank (from_chars cs) ≡ false
unfolding is_blank
hex_not_blank [] h d = absurd (omega arith)
hex_not_blank (c ∷ cs) h d = ground arith

name_not_blank : (kind : RuntimeKind) → is_blank (as_str kind) ≡ false
unfolding is_blank
name_not_blank opencode = refl
name_not_blank codex = refl

-- The values that a launch writes are not blank, its hash is that of its root, and its directory is
-- an absolute path in the root.
pub record IsSound (sha256 : String → List ℕ) (input : ManagedSessionLabelInput) : Type 0 where
  pub hash : input.git_root_hash ≡ git_root_hash12 sha256 input.canonical_git_root
  pub hash_full : is_blank input.git_root_hash ≡ false
  pub root_full : is_blank input.canonical_git_root ≡ false
  pub image_full : is_blank input.image ≡ false
  pub name_full : is_blank input.logical_name ≡ false
  pub absolute : is_absolute input.launch_directory ≡ true
  pub inside : path_is_or_descendant input.launch_directory input.canonical_git_root ≡ true

port_read :
    (kind : RuntimeKind)
    → (is_blank (decimal (attach_spec kind).container_port) ≡ false)
      × (parse_unsigned (decimal (attach_spec kind).container_port) u16_max
          ≡ some (attach_spec kind).container_port)
unfolding is_blank decimal parse_unsigned
port_read opencode = (refl, refl)
port_read codex = (refl, refl)

contract_not_blank :
    (kind : RuntimeKind)
    → (is_blank (attach_spec kind).scheme ≡ false)
      × (is_blank (attach_spec kind).container_listen_ip ≡ false)
unfolding is_blank
contract_not_blank opencode = (refl, refl)
contract_not_blank codex = (refl, refl)

module _ (sha256 : String → List ℕ) (labels : Labels) (input : ManagedSessionLabelInput)
    (written : HasWritten labels input) (sound : IsSound sha256 input) where
  written_required :
      IsMarked labels → HasRequired sha256 labels input.canonical_git_root input.launch_directory
  written_required marked = record {
    identity = record {
      marked = marked;
      root_label = required_label_value-some labels Label.git_root _ written.root sound.root_full;
      hash_label =
          required_label_value-some labels Label.git_root_hash _ written.hash sound.hash_full
          ∙ ap some sound.hash;
    };
    image = (
      input.image,
      required_label_value-some labels Label.image _ written.image sound.image_full,
    );
    logical_name = (
      input.logical_name,
      required_label_value-some labels Label.logical_name _ written.logical_name sound.name_full,
    );
    directory_label =
        required_label_value-some labels Label.launch_directory _ written.directory
          (absolute_not_blank input.launch_directory sound.absolute);
    absolute = sound.absolute;
    inside = sound.inside;
  }

  written_attach : HasAttach labels input.runtime
  written_attach = record {
    runtime = (
      as_str input.runtime,
      required_label_value-some labels Label.runtime _ written.runtime
          (name_not_blank input.runtime),
      parse_runtime_kind-as_str input.runtime,
    );
    scheme =
        required_label_value-some labels Label.attach_scheme _ written.scheme
          (contract_not_blank input.runtime).0;
    port = (
      decimal (attach_spec input.runtime).container_port,
      required_label_value-some labels Label.container_port _ written.port
          (port_read input.runtime).0,
      (port_read input.runtime).1,
    );
    listen_ip =
        required_label_value-some labels Label.container_listen_ip _ written.listen_ip
          (contract_not_blank input.runtime).1;
  }

-- A digest of 32 bytes, a host whose canonical paths are absolute, and a directory that resolves.
module _ (sha256 : String → List ℕ) (bytes : (s : String) → length (sha256 s) ≡ 32) (host : Host)
    (absolute : (p q : FilePath) → host.canonicalize p ≡ ok q → is_absolute q ≡ true)
    (target : String) (workspace : WorkspaceIdentity)
    (resolved : resolve_workspace_identity_with_git sha256 host target ≡ ok workspace)
    (image : String) (image_full : is_blank image ≡ false) (kind : RuntimeKind)
    (args : List String) where
  abbrev input : ManagedSessionLabelInput
  input = label_input workspace image kind args

  facts : IsResolved sha256 host workspace
  facts = resolve-IsResolved sha256 host target workspace resolved

  resolved-IsSound : IsSound sha256 input
  unfolding git_root_hash12
  resolved-IsSound =
      let root = workspace.canonical_git_root in
      let (len, digits) = hash12_chars_digits sha256 root (bytes root) in
      record {
        hash = facts.hash;
        hash_full = ap is_blank facts.hash ∙ hex_not_blank (hash12_chars sha256 root) len digits;
        root_full = absolute_not_blank root (absolute facts.git_root root facts.root);
        image_full = image_full;
        name_full =
            ap is_blank facts.name ∙ container_name_not_blank root (hash12_chars sha256 root);
        absolute = absolute workspace.requested_target workspace.canonical_target facts.target;
        inside = facts.inside;
      }

  module _ (probe : GitRootProbe)
      (standing : git_root_is_orphaned workspace.canonical_git_root probe ≡ false)
      (container : PodmanPsContainer) (inspect : PodmanContainerInspect)
      (up : inspect.running ≡ true)
      (mounted : has_volume_mount_destination inspect.mounts required_nix_cache_mount_destination
        ≡ true)
      (endpoint : AttachEndpoint)
      (published : published_attach_endpoint inspect.ports (attach_spec kind)
        ≡ ok (some endpoint)) where
    live :
        (labels : Labels)
        → HasWritten labels input
        → IsMarked labels
        → inspect.labels ≡ labels
        → IsLive sha256 probe inspect workspace.canonical_git_root workspace.canonical_target kind
            endpoint
    live labels written marked e = record {
      required =
          subst (λ l. HasRequired sha256 l workspace.canonical_git_root workspace.canonical_target)
            (sym e) (written_required sha256 labels input written resolved-IsSound marked);
      attach =
          subst (λ l. HasAttach l kind) (sym e)
            (written_attach sha256 labels input written resolved-IsSound);
      published = published;
      mounted = mounted;
      up = up;
      rooted = standing;
    }

    -- A container with the labels that a transient run of a resolved workspace is launched with, for
    -- an image whose name is not blank, is discovered as a run and recorded as running with its
    -- published endpoint, if it runs with the cache volume mounted and the runtime's port published,
    -- and the git root still stands. The digest has 32 bytes, and the host's canonical paths are
    -- absolute.
    pub transient_run_discovered :
        inspect.labels ≡ transient_run_labels input
        → let session = build_session_record sha256 probe container inspect run in
          (agentbox_container_kind_from_labels inspect.labels ≡ some run)
          × (session.status ≡ running)
          × (session.attach_endpoint ≡ some endpoint)
    transient_run_discovered e =
        let m = transient_run_labels_marked input in
        let l =
          live (transient_run_labels input) (transient_run_labels-HasWritten input) (inr m) e in
        let (r, p) =
          build_session_record_live sha256 probe container inspect run workspace.canonical_git_root
            workspace.canonical_target kind endpoint l in
        (ap agentbox_container_kind_from_labels e ∙ m, r, p)

-- The managed container of a resolved workspace. The digest has 32 bytes, and the host's canonical paths
-- are absolute.
module _ (sha256 : String → List ℕ) (bytes : (s : String) → length (sha256 s) ≡ 32) (host : Host)
    (absolute : (p q : FilePath) → host.canonicalize p ≡ ok q → is_absolute q ≡ true)
    (target : String) (workspace : WorkspaceIdentity)
    (resolved : resolve_workspace_identity_with_git sha256 host target ≡ ok workspace)
    (context_hash : String) (kind : RuntimeKind) (args : List String) (probe : GitRootProbe)
    (standing : git_root_is_orphaned workspace.canonical_git_root probe ≡ false)
    (container : PodmanPsContainer) (inspect : PodmanContainerInspect) (up : inspect.running ≡ true)
    (mounted : has_volume_mount_destination inspect.mounts required_nix_cache_mount_destination
      ≡ true)
    (endpoint : AttachEndpoint)
    (published : published_attach_endpoint inspect.ports (attach_spec kind)
      ≡ ok (some endpoint)) where
  -- A container is discovered as a managed container and recorded as running with its published
  -- endpoint, if its labels are those of the specification that a launch prepares for a resolved
  -- workspace under the policy of a managed server, with the limits and the image's version that the
  -- launch records; if it runs with the cache volume mounted and the runtime's port published; and if
  -- the git root still stands. The digest has 32 bytes, and the host's canonical paths are absolute.
  pub managed_session_discovered :
      (json : Json) (policy : RuntimeLaunchPolicy) (found : LaunchFindings)
      (invocation : RuntimeInvocation) (limits : ResourceLimits)
      → policy.run_mode ≡ managed_session
      → inspect.labels
        ≡ (prepared_run_spec context_hash json kind policy workspace found invocation args
            limits).create.labels
      → let session = build_session_record sha256 probe container inspect managed in
        (agentbox_container_kind_from_labels inspect.labels ≡ some managed)
        × (session.status ≡ running)
        × (session.attach_endpoint ≡ some endpoint)
  managed_session_discovered json policy found invocation limits mode e =
      let image = default_image context_hash kind in
      let labels =
        (prepared_run_spec context_hash json kind policy workspace found invocation args
          limits).create.labels in
      let carried =
        prepared-IsManagedWritten context_hash json kind policy workspace found invocation args
          limits mode in
      let (m, s) = written_marked labels (label_input workspace image kind args) carried in
      let l =
        live sha256 bytes host absolute target workspace resolved image
          (default_image-full context_hash kind) kind args probe standing container inspect up
          mounted endpoint published labels carried.written (inl (m, s)) e in
      let (r, p) =
        build_session_record_live sha256 probe container inspect managed
          workspace.canonical_git_root workspace.canonical_target kind endpoint l in
      (ap agentbox_container_kind_from_labels e ∙ m, r, p)
