-- ===== src/Launch/Prepared/Written.antt =====
-- The labels of a managed session's prepared specification.
use agentbox_nix.Shared.{
  String, ◌≡◌, refl, sym, subst, ◌∙◌, Bool, true, false, Option, none, some, List, [], ◌∷◌, ◌==◌,
  string_eq, string_discrete, if◌then◌else◌, arith,
}
use agentbox_nix.Text.{is_blank}
use agentbox_nix.Errors.{RuntimeKind, opencode, codex, managed}
use agentbox_nix.Clean.Image.{default_image}
use agentbox_nix.Config.{ResourceLimits, stored_or_zero}
use agentbox_nix.Metadata.{
  Labels, Json, get, insert, label_input, required_label_value, agentbox_container_kind_from_labels,
  ManagedSessionLabelInput, schema_value, managed_value,
}
use agentbox_nix.Metadata.Label
use agentbox_nix.Metadata.Laws.{get-insert, required_label_value-some}
use agentbox_nix.Metadata.Written.{
  HasWritten, managed_session_labels-HasWritten, kind_managed, marker_values,
}
use agentbox_nix.Workspace.{WorkspaceIdentity}
use agentbox_nix.Launch.Spec.{
  RuntimeMount, RuntimeInvocation, RuntimeRunSpec, RuntimeRunMode, managed_session,
  insert_create_label, create_spec, run_spec,
}
use agentbox_nix.Launch.Existing.{RuntimeLaunchPolicy}
use agentbox_nix.Launch.Prepared.{
  runtime_package_version_label, extend_create_default_env, apply_wayland_passthrough, add_mounts,
  SshPassthrough, apply_known_hosts, apply_ssh_passthrough, insert_version,
  record_runtime_image_version, limits_for_mode, record_managed_resource_limits, LaunchFindings,
  prepared_run_spec,
}

-- All that discovery asks for of the labels of a managed session.
pub record IsManagedWritten (labels : Labels) (input : ManagedSessionLabelInput) : Type 0 where
  pub written : HasWritten labels input
  pub managed : get labels Label.managed ≡ some managed_value
  pub schema : get labels Label.schema ≡ some schema_value

-- The name of a label that discovery does not ask for.
record IsOther (k : String) : Type 0 where
  root : (k == Label.git_root) ≡ false
  hash : (k == Label.git_root_hash) ≡ false
  runtime : (k == Label.runtime) ≡ false
  image : (k == Label.image) ≡ false
  directory : (k == Label.launch_directory) ≡ false
  logical_name : (k == Label.logical_name) ≡ false
  scheme : (k == Label.attach_scheme) ≡ false
  port : (k == Label.container_port) ≡ false
  listen_ip : (k == Label.container_listen_ip) ≡ false
  managed : (k == Label.managed) ≡ false
  schema : (k == Label.schema) ≡ false

get-other :
    (k v j w : String) (labels : Labels)
    → (k == j) ≡ false
    → get labels j ≡ some w
    → get (insert k v labels) j ≡ some w
get-other k v j w labels h g = ground (arith, get-insert j k v labels)

insert-IsManagedWritten :
    (k v : String) (labels : Labels) (input : ManagedSessionLabelInput)
    → IsOther k
    → IsManagedWritten labels input
    → IsManagedWritten (insert k v labels) input
insert-IsManagedWritten k v labels input other h = record {
  written = record {
    root = get-other k v _ _ labels other.root h.written.root;
    hash = get-other k v _ _ labels other.hash h.written.hash;
    runtime = get-other k v _ _ labels other.runtime h.written.runtime;
    image = get-other k v _ _ labels other.image h.written.image;
    directory = get-other k v _ _ labels other.directory h.written.directory;
    logical_name = get-other k v _ _ labels other.logical_name h.written.logical_name;
    scheme = get-other k v _ _ labels other.scheme h.written.scheme;
    port = get-other k v _ _ labels other.port h.written.port;
    listen_ip = get-other k v _ _ labels other.listen_ip h.written.listen_ip;
  };
  managed = get-other k v _ _ labels other.managed h.managed;
  schema = get-other k v _ _ labels other.schema h.schema;
}

cpus-IsOther : IsOther Label.cpus
unfolding string_discrete
cpus-IsOther = record {
  root = refl;
  hash = refl;
  runtime = refl;
  image = refl;
  directory = refl;
  logical_name = refl;
  scheme = refl;
  port = refl;
  listen_ip = refl;
  managed = refl;
  schema = refl;
}

memory-IsOther : IsOther Label.memory
unfolding string_discrete
memory-IsOther = record {
  root = refl;
  hash = refl;
  runtime = refl;
  image = refl;
  directory = refl;
  logical_name = refl;
  scheme = refl;
  port = refl;
  listen_ip = refl;
  managed = refl;
  schema = refl;
}

version-IsOther : (runtime : RuntimeKind) → IsOther (runtime_package_version_label runtime)
unfolding string_discrete
version-IsOther opencode = record {
  root = refl;
  hash = refl;
  runtime = refl;
  image = refl;
  directory = refl;
  logical_name = refl;
  scheme = refl;
  port = refl;
  listen_ip = refl;
  managed = refl;
  schema = refl;
}
version-IsOther codex = record {
  root = refl;
  hash = refl;
  runtime = refl;
  image = refl;
  directory = refl;
  logical_name = refl;
  scheme = refl;
  port = refl;
  listen_ip = refl;
  managed = refl;
  schema = refl;
}

-- What is passed through adds mounts and variables, and no labels.
add_mounts_labels :
    (mounts : List RuntimeMount) (spec : RuntimeRunSpec)
    → (add_mounts mounts spec).create.labels ≡ spec.create.labels
add_mounts_labels [] spec = refl
add_mounts_labels (mount ∷ mounts) spec = add_mounts_labels mounts _

wayland_labels :
    (socket : Option String) (spec : RuntimeRunSpec)
    → (apply_wayland_passthrough socket spec).create.labels ≡ spec.create.labels
wayland_labels none spec = refl
wayland_labels (some socket) spec = refl

known_hosts_labels :
    (known : Option (RuntimeMount × List (String × String))) (spec : RuntimeRunSpec)
    → (apply_known_hosts known spec).create.labels ≡ spec.create.labels
known_hosts_labels none spec = refl
known_hosts_labels (some (mount, env)) spec = refl

ssh_labels :
    (ssh : SshPassthrough) (spec : RuntimeRunSpec)
    → (apply_ssh_passthrough ssh spec).create.labels ≡ spec.create.labels
ssh_labels ssh spec =
    known_hosts_labels ssh.known_hosts
      (extend_create_default_env ssh.env (add_mounts ssh.mounts spec))
    ∙ add_mounts_labels ssh.mounts spec

module _ (input : ManagedSessionLabelInput) where
  abbrev Carries : RuntimeRunSpec → Type 0
  Carries spec = IsManagedWritten spec.create.labels input

  version-Carries :
      (runtime : RuntimeKind) (version : Option String) (records : Bool) (spec : RuntimeRunSpec)
      → Carries spec
      → Carries (if records then insert_version runtime version spec else spec)
  unfolding insert_create_label
  version-Carries runtime version false spec h = h
  version-Carries runtime none true spec h = h
  version-Carries runtime (some version) true spec h =
      insert-IsManagedWritten (runtime_package_version_label runtime) version spec.create.labels
        input (version-IsOther runtime) h

  limits-Carries :
      (mode : RuntimeRunMode) (spec : RuntimeRunSpec)
      → mode ≡ managed_session
      → Carries spec
      → Carries (limits_for_mode mode spec)
  unfolding insert_create_label
  limits-Carries mode spec e h =
      let stored = stored_or_zero spec.create.resource_limits in
      subst (λ m. Carries (limits_for_mode m spec)) (sym e)
        (insert-IsManagedWritten Label.memory stored.memory
          (insert Label.cpus stored.cpus spec.create.labels) input memory-IsOther
          (insert-IsManagedWritten Label.cpus stored.cpus spec.create.labels input cpus-IsOther h))

module _ (context_hash : String) (json : Json) (runtime : RuntimeKind)
    (policy : RuntimeLaunchPolicy) (workspace : WorkspaceIdentity) (found : LaunchFindings)
    (invocation : RuntimeInvocation) (args : List String) (limits : ResourceLimits) where
  abbrev input : ManagedSessionLabelInput
  input = label_input workspace (default_image context_hash runtime) runtime args

  abbrev start : RuntimeRunMode → RuntimeRunSpec
  start mode =
      run_spec context_hash json runtime mode workspace found.host_nix_mounts found.runtime_mounts
        invocation args limits

  start-Carries : (mode : RuntimeRunMode) → mode ≡ managed_session → Carries input (start mode)
  unfolding run_spec create_spec
  start-Carries mode e =
      let (m, s) = marker_values json input in
      subst (λ k. Carries input (start k)) (sym e)
        (record { written = managed_session_labels-HasWritten json input; managed = m; schema = s })

  pub prepared-IsManagedWritten :
      policy.run_mode ≡ managed_session
      → IsManagedWritten
          (prepared_run_spec context_hash json runtime policy workspace found invocation args
            limits).create.labels
          input
  unfolding prepared_run_spec record_runtime_image_version record_managed_resource_limits
  prepared-IsManagedWritten e =
      let extended = extend_create_default_env found.runtime_environment (start policy.run_mode) in
      let displayed = apply_wayland_passthrough found.wayland extended in
      let passed = apply_ssh_passthrough found.ssh displayed in
      let labels_eq : passed.create.labels ≡ (start policy.run_mode).create.labels =
        ssh_labels found.ssh displayed ∙ wayland_labels found.wayland extended in
      let carried : Carries input passed =
        subst (λ l. IsManagedWritten l input) (sym labels_eq) (start-Carries policy.run_mode e) in
      limits-Carries input policy.run_mode _ e (
        version-Carries input runtime found.runtime_image_version
          policy.record_runtime_image_version passed carried)

-- Such labels mark a managed session with the schema that is understood.
pub written_marked :
    (labels : Labels) (given : ManagedSessionLabelInput)
    → IsManagedWritten labels given
    → (agentbox_container_kind_from_labels labels ≡ some managed)
      × (required_label_value labels Label.schema ≡ some schema_value)
unfolding is_blank
written_marked labels given h = (
  kind_managed labels (required_label_value-some labels Label.managed managed_value h.managed refl),
  required_label_value-some labels Label.schema schema_value h.schema refl,
)

-- A default image has a name.
pub default_image-full :
    (hash : String) (runtime : RuntimeKind) → is_blank (default_image hash runtime) ≡ false
unfolding default_image is_blank
default_image-full hash opencode = refl
default_image-full hash codex = refl
