-- ===== src/Launch/Args/Settings.antt =====
-- What the options of a detached run set, with their values read.
use agentbox_nix.Shared.{
  ℕ, String, Bool, true, false, ◌≡◌, refl, ap, Option, none, some, List, [], ◌∷◌, ◌++◌, map, All,
  drop, ◌==◌, string_eq, string_discrete, if◌then◌else◌, compare, Ordering,
}
use agentbox_nix.Shared.Order.{lex}
use agentbox_nix.Text.{codes}
use agentbox_nix.Config.{CpuLimit, MemoryLimit}
use agentbox_nix.Launch.Spec.{RuntimeRunSpec}
use agentbox_nix.Launch.Args.{
  key_value, render_mount, insert_by_key, by_key, network_args, run_detached_args,
}
use agentbox_nix.Launch.Args.Reading.{
  PodmanRun, is_option, read_run, identity_options, cpus_options, memory_options,
}
use agentbox_nix.Launch.Args.Values.{
  PodmanMount, read_mount, read_key_value, asked_of, IsPlain, Lacks, read-key_value,
  read-render_mount,
}
use agentbox_nix.Launch.Args.RoundTrip.{spec_options, read-run_detached_args}

pub data Setting : Type 0 where
  mounted : PodmanMount → Setting
  labelled variable : String × Option String → Setting
  given : String × String → Setting

unfoldable pub read_setting : String × String → Setting
unfolding string_discrete
read_setting (name, value) =
    if name == "--mount"
    then mounted (read_mount value)
    else if name == "--label"
    then labelled (read_key_value value)
    else if name == "--env"
    then variable (read_key_value value)
    else given (name, value)

abbrev pub entry_of : String × String → String × Option String
entry_of (name, value) = (name, some value)

-- What a specification asks of Podman.
abbrev pub asked_settings : String → RuntimeRunSpec → ℕ → List Setting
asked_settings name spec gid =
    let create = spec.create in
    map given (identity_options name spec gid)
    ++ (map (λ label. labelled (entry_of label)) (by_key create.labels)
        ++ (map (λ mount. mounted (asked_of mount)) create.mounts
            ++ (map (λ entry. variable (entry_of entry)) (by_key create.default_env)
                ++ (map given (cpus_options create.resource_limits.cpus)
                    ++ (map given (memory_options create.resource_limits.memory)
                        ++ map (λ port. given ("--publish", port)) create.published_ports)))))

-- The name of a label or a variable has no `=`.
abbrev pub IsNamed : String × String → Type 0
IsNamed entry = Lacks 61 entry.0

insert_by_key-IsNamed :
    (entry : String × String) (others : List (String × String))
    → IsNamed entry
    → All IsNamed others
    → All IsNamed (insert_by_key entry others)
insert_by_key-IsNamed entry [] h hs = (h, tt)
insert_by_key-IsNamed entry (other ∷ others) h (k, ks) =
    by_order (insert_by_key-IsNamed entry others h ks) (lex compare (codes entry.0) (codes other.0))
  where
    by_order :
        All IsNamed (insert_by_key entry others)
        → (o : Ordering)
        → All IsNamed (elim o [
          | Ordering.gt ↦ other ∷ insert_by_key entry others
          | _ ↦ entry ∷ other ∷ others
        ])
    by_order inserted Ordering.gt = (k, inserted)
    by_order inserted Ordering.eq = (h, (k, ks))
    by_order inserted Ordering.lt = (h, (k, ks))

by_key-IsNamed :
    (entries : List (String × String)) → All IsNamed entries → All IsNamed (by_key entries)
unfolding by_key
by_key-IsNamed [] h = tt
by_key-IsNamed (entry ∷ entries) (h, hs) =
    insert_by_key-IsNamed entry (by_key entries) h (by_key-IsNamed entries hs)

-- A part of the options is read as the settings that it stands for, before the rest.
part :
    {A : Type 0} (f : A → String × String) (g : A → Setting) (P : A → Type 0) (items : List A)
    (rest : List (String × String)) (settings : List Setting)
    → ((item : A) → P item → read_setting (f item) ≡ g item)
    → All P items
    → map read_setting rest ≡ settings
    → map read_setting (map f items ++ rest) ≡ map g items ++ settings
part f g P [] rest settings h all e = e
part f g P (item ∷ items) rest settings h (p, ps) e =
    λ i. h item p i ∷ part f g P items rest settings h ps e i

last_part :
    {A : Type 0} (f : A → String × String) (g : A → Setting) (items : List A)
    → ((item : A) → read_setting (f item) ≡ g item)
    → map read_setting (map f items) ≡ map g items
last_part f g [] h = refl
last_part f g (item ∷ items) h = λ i. h item i ∷ last_part f g items h i

limits_part :
    (text : Bool) (name value : String) (rest : List (String × String)) (settings : List Setting)
    → ((n : String) → read_setting (name, n) ≡ given (name, n))
    → map read_setting rest ≡ settings
    → map read_setting ((if text then [] else (name, value) ∷ []) ++ rest)
      ≡ map given (if text then [] else (name, value) ∷ []) ++ settings
limits_part true name value rest settings h e = e
limits_part false name value rest settings h e = λ i. h value i ∷ e i

cpus_part :
    (limit : Option CpuLimit) (rest : List (String × String)) (settings : List Setting)
    → map read_setting rest ≡ settings
    → map read_setting (cpus_options limit ++ rest) ≡ map given (cpus_options limit) ++ settings
unfolding read_setting
cpus_part none rest settings e = e
cpus_part (some limit) rest settings e =
    limits_part (limit.text == "0") "--cpus" limit.text rest settings (λ n. refl) e

memory_part :
    (limit : Option MemoryLimit) (rest : List (String × String)) (settings : List Setting)
    → map read_setting rest ≡ settings
    → map read_setting (memory_options limit ++ rest) ≡ map given (memory_options limit) ++ settings
unfolding read_setting
memory_part none rest settings e = e
memory_part (some limit) rest settings e =
    limits_part (limit.text == "0") "--memory" limit.text rest settings (λ n. refl) e

settings_read :
    (name : String) (spec : RuntimeRunSpec) (gid : ℕ)
    → All IsPlain spec.create.mounts
    → All IsNamed spec.create.labels
    → All IsNamed spec.create.default_env
    → map read_setting (identity_options name spec gid ++ spec_options spec.create)
      ≡ asked_settings name spec gid
unfolding read_setting
settings_read name spec gid plain labels env =
    let create = spec.create in
    let ports =
      last_part (λ port. ("--publish", port)) (λ port. given ("--publish", port))
        create.published_ports (λ port. refl) in
    let limits =
      cpus_part create.resource_limits.cpus _ _
        (memory_part create.resource_limits.memory _ _ ports) in
    let variables =
      part (λ entry. ("--env", key_value entry)) (λ entry. variable (entry_of entry)) IsNamed
        (by_key create.default_env) _ _ (λ entry h. ap variable (read-key_value entry.0 entry.1 h))
        (by_key-IsNamed create.default_env env) limits in
    let mounts =
      part (λ mount. ("--mount", render_mount mount)) (λ mount. mounted (asked_of mount)) IsPlain
        create.mounts _ _ (λ mount h. ap mounted (read-render_mount mount h)) plain variables in
    let labels_read =
      part (λ label. ("--label", key_value label)) (λ label. labelled (entry_of label)) IsNamed
        (by_key create.labels) _ _ (λ label h. ap labelled (read-key_value label.0 label.1 h))
        (by_key-IsNamed create.labels labels) mounts in
    λ i. map given (identity_options name spec gid) ++ labels_read i

-- The arguments of a detached run are read by Podman as what its specification asks for, if the image's
-- name does not start with `--`, no path of a mount has a comma, and no name of a label or a variable
-- has a `=`. The container is removed at its end, and has no network where the specification has
-- none. Its options set the name, the user and the working directory; each label and each variable
-- to its whole value; each mount with its kind, its source, its destination and whether it is only
-- read, and makes the user the owner of a volume; each limit other than `0`; and each port. The image
-- and the whole command follow, whatever the command's words look like.
pub read-run_spec :
    (name : String) (spec : RuntimeRunSpec) (gid : ℕ)
    → is_option spec.create.image ≡ false
    → All IsPlain spec.create.mounts
    → All IsNamed spec.create.labels
    → All IsNamed spec.create.default_env
    → (run : PodmanRun) × (read_run (drop 1 (run_detached_args name spec gid)) ≡ some run)
      × (run.switches
          ≡ "--detach"
            ∷ "--rm"
            ∷ (if spec.create.network_enabled then [] else "--network=none" ∷ []))
      × (map read_setting run.options ≡ asked_settings name spec gid)
      × (run.image ≡ spec.create.image)
      × (run.command ≡ spec.create.command)
read-run_spec name spec gid image plain labels env = (
  record {
    switches = "--detach" ∷ "--rm" ∷ network_args spec.create.network_enabled;
    options = identity_options name spec gid ++ spec_options spec.create;
    image = spec.create.image;
    command = spec.create.command;
  },
  read-run_detached_args name spec gid image,
  switches spec.create.network_enabled,
  settings_read name spec gid plain labels env,
  refl,
  refl,
)
  where
    switches :
        (enabled : Bool)
        → ◌≡◌ {A = List String}
            ("--detach" ∷ "--rm" ∷ network_args enabled)
            ("--detach" ∷ "--rm" ∷ (if enabled then [] else "--network=none" ∷ []))
    switches true = refl
    switches false = refl
