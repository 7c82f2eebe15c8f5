-- ===== src/Launch/Args/Reading.antt =====
-- The arguments of `podman run` as Podman reads them: switches and options up to the first argument
-- that is neither, which is the image; what follows is the command.
use mathlib.Core.List.{append_assoc}
use Prim.Native.String.{◌++◌ as ◌<>◌}
use agentbox_nix.Shared.{
  ℕ, String, Bool, true, false, not, ◌||◌, ◌≡◌, refl, ap, ◌∙◌, sym, Option, none, some, List, [],
  ◌∷◌, ◌++◌, map, ◌==◌, string_eq, string_discrete, if◌then◌else◌, arith,
}
use agentbox_nix.Text.{codes, decimal, is_prefix}
use agentbox_nix.Config.{CpuLimit, MemoryLimit}
use agentbox_nix.Launch.Spec.{RuntimeRunSpec}
use agentbox_nix.Launch.Args.{
  options_of, cpus_args, memory_args, network_args, identity_args, option,
}

pub record PodmanRun : Type 0 where
  pub switches : List String
  pub options : List (String × String)
  pub image : String
  pub command : List String

abbrev pub is_switch : String → Bool
is_switch arg =
    arg == "--detach"
    || arg == "--rm"
    || arg == "--interactive"
    || arg == "--tty"
    || arg == "--network=none"

abbrev pub is_option : String → Bool
is_option arg = is_prefix (codes "--") (codes arg)

-- What was read before the rest.
abbrev pub prepend : List String → List (String × String) → Option PodmanRun → Option PodmanRun
prepend switches options none = none
prepend switches options (some run) =
    some (record run { switches = switches ++ run.switches; options = options ++ run.options })

abbrev pub positional : String → List String → Option PodmanRun
positional image command =
    some (record { switches = []; options = []; image = image; command = command })

-- An option takes the next argument as its value, whatever that is.
unfoldable pub read_run : List String → Option PodmanRun
unfolding string_discrete
read_run [] = none
read_run (arg ∷ []) = if is_option arg then none else positional arg []
read_run (arg ∷ value ∷ rest) =
    let with_switch = prepend (arg ∷ []) [] (read_run (value ∷ rest)) in
    let with_option = prepend [] ((arg, value) ∷ []) (read_run rest) in
    if is_option arg
    then if is_switch arg then with_switch else with_option
    else positional arg (value ∷ rest)

abbrev pub pairs_of {ℓ} : {A : Type ℓ} → String → (A → String) → List A → List (String × String)
pairs_of name render items = map (λ item. (name, render item)) items

pub prepend-prepend :
    (s s' : List String) (o o' : List (String × String)) (read : Option PodmanRun)
    → prepend s o (prepend s' o' read) ≡ prepend (s ++ s') (o ++ o') read
prepend-prepend s s' o o' none = refl
prepend-prepend s s' o o' (some run) = λ i. some (record run {
  switches = (sym (append_assoc s s' run.switches)) i;
  options = (sym (append_assoc o o' run.options)) i;
})

pub prepend-nil : (read : Option PodmanRun) → prepend [] [] read ≡ read
prepend-nil none = refl
prepend-nil (some run) = refl

-- Podman takes such a name for that of an option with a value.
abbrev pub Takes : String → Type 0
Takes name =
    (value : String) (rest : List String)
    → read_run (name ∷ value ∷ rest) ≡ prepend [] ((name, value) ∷ []) (read_run rest)

pub read-options_of {ℓ} :
    {A : Type ℓ} (name : String) (render : A → String) (items : List A) (rest : List String)
    → Takes name
    → read_run (options_of name render items ++ rest)
      ≡ prepend [] (pairs_of name render items) (read_run rest)
read-options_of name render [] rest takes = sym (prepend-nil (read_run rest))
read-options_of name render (item ∷ items) rest takes =
    takes (render item) (options_of name render items ++ rest)
    ∙ ap (prepend [] ((name, render item) ∷ [])) (read-options_of name render items rest takes)
    ∙ prepend-prepend [] [] ((name, render item) ∷ []) (pairs_of name render items) (read_run rest)

abbrev pub identity_options : String → RuntimeRunSpec → ℕ → List (String × String)
identity_options name spec gid =
    ("--name", name)
    ∷ ("--userns", "keep-id:uid=1000,gid=" <> decimal gid)
    ∷ ("--user", "user:" <> decimal gid)
    ∷ ("--group-add", "keep-groups")
    ∷ ("--workdir", spec.workdir)
    ∷ []

-- Limits, as the options that are expected for them.
abbrev pub cpus_options : Option CpuLimit → List (String × String)
cpus_options none = []
cpus_options (some cpus) = if cpus.text == "0" then [] else ("--cpus", cpus.text) ∷ []

abbrev pub memory_options : Option MemoryLimit → List (String × String)
memory_options none = []
memory_options (some memory) = if memory.text == "0" then [] else ("--memory", memory.text) ∷ []

read-limit :
    (zero : Bool) (name text : String) (rest : List String)
    → Takes name
    → read_run ((if not zero then option name text else []) ++ rest)
      ≡ prepend [] (if zero then [] else (name, text) ∷ []) (read_run rest)
read-limit true name text rest takes = sym (prepend-nil (read_run rest))
read-limit false name text rest takes = takes text rest

Takes-cpus : Takes "--cpus"
unfolding read_run
Takes-cpus value rest = refl

pub read-cpus :
    (limit : Option CpuLimit) (rest : List String)
    → read_run (cpus_args limit ++ rest) ≡ prepend [] (cpus_options limit) (read_run rest)
read-cpus none rest = sym (prepend-nil (read_run rest))
read-cpus (some cpus) rest = read-limit (cpus.text == "0") "--cpus" cpus.text rest Takes-cpus

Takes-memory : Takes "--memory"
unfolding read_run
Takes-memory value rest = refl

pub read-memory :
    (limit : Option MemoryLimit) (rest : List String)
    → read_run (memory_args limit ++ rest) ≡ prepend [] (memory_options limit) (read_run rest)
read-memory none rest = sym (prepend-nil (read_run rest))
read-memory (some memory) rest =
    read-limit (memory.text == "0") "--memory" memory.text rest Takes-memory

pub read-network :
    (enabled : Bool) (rest : List String)
    → read_run (network_args enabled ++ rest) ≡ prepend (network_args enabled) [] (read_run rest)
unfolding read_run
read-network true rest = sym (prepend-nil (read_run rest))
read-network false [] = refl
read-network false (arg ∷ rest) = refl

pub read-image :
    (image : String) (command : List String)
    → is_option image ≡ false
    → read_run (image ∷ command) ≡ positional image command
unfolding read_run
read-image image [] h = ground (arith, h)
read-image image (arg ∷ rest) h = ground (arith, h)

pub read-identity :
    (name : String) (spec : RuntimeRunSpec) (gid : ℕ) (rest : List String)
    → read_run (identity_args name spec gid ++ rest)
      ≡ prepend [] (identity_options name spec gid) (read_run rest)
unfolding read_run
read-identity name spec gid rest = identity (read_run rest)
  where
    identity :
        (read : Option PodmanRun)
        → prepend [] (("--name", name) ∷ []) (
            prepend [] (("--userns", "keep-id:uid=1000,gid=" <> decimal gid) ∷ []) (
              prepend [] (("--user", "user:" <> decimal gid) ∷ []) (
                prepend []
                  (("--group-add", "keep-groups") ∷ [])
                  (prepend [] (("--workdir", spec.workdir) ∷ []) read))))
          ≡ prepend [] (identity_options name spec gid) read
    identity none = refl
    identity (some run) = refl
