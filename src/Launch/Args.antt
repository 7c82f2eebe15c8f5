-- ===== src/Launch/Args.antt =====
-- src/podman/run.rs and args.rs: the arguments of `podman run`. A vector that is pushed to is the
-- concatenation of what is pushed.
pub mod Reading
pub mod Values
pub mod RoundTrip
pub mod Settings
use Prim.Native.String.{◌++◌ as ◌<>◌}
use agentbox_nix.Shared.{
  ℕ, String, Bool, true, false, not, Option, none, some, List, [], ◌∷◌, ◌++◌, ◌==◌, string_eq,
  if◌then◌else◌, compare, Ordering,
}
use agentbox_nix.Shared.Order.{lex}
use agentbox_nix.Text.{decimal, codes}
use agentbox_nix.Config.{ResourceLimits, CpuLimit, MemoryLimit}
use agentbox_nix.Launch.Spec.{
  RuntimeMountKind, bind, volume, RuntimeMount, is_volume, RuntimeCreateSpec, RuntimeRunSpec,
}

-- `PodmanArgs::option`
abbrev pub option : String → String → List String
option name value = name ∷ value ∷ []

abbrev pub key_value : String × String → String
key_value (key, value) = key <> ("=" <> value)

-- A loop that pushes an option for each item.
abbrev pub options_of {ℓ} : {A : Type ℓ} → String → (A → String) → List A → List String
options_of name render [] = []
options_of name render (item ∷ items) = name ∷ render item ∷ options_of name render items

-- The iteration over a `BTreeMap` goes by its keys, which are texts ordered by their bytes.
abbrev pub insert_by_key : String × String → List (String × String) → List (String × String)
insert_by_key entry [] = entry ∷ []
insert_by_key entry (other ∷ others) =
    let rest = insert_by_key entry others in
    elim (lex compare (codes entry.0) (codes other.0)) [
      | Ordering.gt ↦ other ∷ rest
      | _ ↦ entry ∷ other ∷ others
    ]

unfoldable pub by_key : List (String × String) → List (String × String)
by_key [] = []
by_key (entry ∷ entries) = insert_by_key entry (by_key entries)

abbrev pub podman_mount_type : RuntimeMountKind → String
podman_mount_type bind = "bind"
podman_mount_type volume = "volume"

-- `render_mount`; the options are joined by commas.
unfoldable pub render_mount : RuntimeMount → String
render_mount mount =
    let ro = if mount.read_only then ",ro" else "" in
    let u = if is_volume mount.kind then ",U" else "" in
    "type="
    <> (podman_mount_type mount.kind
        <> (",src=" <> (mount.source <> (",dst=" <> (mount.destination <> (ro <> u))))))

-- A limit of `0` is no limit, and is not passed on.
abbrev pub cpus_args : Option CpuLimit → List String
cpus_args none = []
cpus_args (some cpus) = if not (cpus.text == "0") then option "--cpus" cpus.text else []

abbrev pub memory_args : Option MemoryLimit → List String
memory_args none = []
memory_args (some memory) = if not (memory.text == "0") then option "--memory" memory.text else []

abbrev pub network_args : Bool → List String
network_args enabled = if not enabled then "--network=none" ∷ [] else []

abbrev pub identity_args : String → RuntimeRunSpec → ℕ → List String
identity_args container_name spec host_gid =
    let gid = decimal host_gid in
    "--name"
    ∷ container_name
    ∷ "--userns"
    ∷ ("keep-id:uid=1000,gid=" <> gid)
    ∷ "--user"
    ∷ ("user:" <> gid)
    ∷ "--group-add"
    ∷ "keep-groups"
    ∷ "--workdir"
    ∷ spec.workdir
    ∷ []

-- `append_common_run_args`: what it pushes.
unfoldable pub common_run_args : String → RuntimeRunSpec → ℕ → List String
unfolding render_mount by_key
common_run_args container_name spec host_gid =
    let create = spec.create in
    identity_args container_name spec host_gid
    ++ (options_of "--label" key_value (by_key create.labels)
        ++ (options_of "--mount" render_mount create.mounts
            ++ (options_of "--env" key_value (by_key create.default_env)
                ++ (cpus_args create.resource_limits.cpus
                    ++ (memory_args create.resource_limits.memory
                        ++ (network_args create.network_enabled
                            ++ (options_of "--publish" (λ port. port) create.published_ports
                                ++ (create.image ∷ create.command))))))))

unfoldable pub run_detached_args : String → RuntimeRunSpec → ℕ → List String
unfolding common_run_args
run_detached_args container_name spec host_gid =
    "run" ∷ "--detach" ∷ "--rm" ∷ common_run_args container_name spec host_gid

unfoldable pub run_foreground_args : String → RuntimeRunSpec → ℕ → Bool → List String
unfolding common_run_args
run_foreground_args container_name spec host_gid use_tty =
    "run"
    ∷ "--rm"
    ∷ "--interactive"
    ∷ ((if use_tty then "--tty" ∷ [] else []) ++ common_run_args container_name spec host_gid)
