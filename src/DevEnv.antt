-- ===== src/DevEnv.antt =====
-- src/dev_env: the development environment of a directory, found by the files between it and its git
-- root. A directory is given by the components of its path, the last one first; a candidate file by its
-- directory and its name. Files and the probe of a flake are parameters.
pub mod Nearest
use Prim.Native.String.{◌++◌ as ◌<>◌}
use agentbox_nix.Shared.{
  ℕ, String, Bool, true, false, Option, none, some, List, [], ◌∷◌, ◌++◌, find, map_option, Result,
  ok, err, ◌>>=◌, ◌==◌, string_eq, if◌then◌else◌, compare, Ordering,
}
use agentbox_nix.Shared.Order.{lex}
use agentbox_nix.Errors.{Error}
use agentbox_nix.Paths.{
  FilePath, Component, root_dir, cur_dir, parent_dir, normal, components, path_key,
}

abbrev pub Directory : Type 0
Directory = List Component

abbrev pub reverse_onto {ℓ} : {A : Type ℓ} → List A → List A → List A
reverse_onto [] acc = acc
reverse_onto (x ∷ xs) acc = reverse_onto xs (x ∷ acc)

abbrev pub directory_of : FilePath → Directory
directory_of path = reverse_onto (components path) []

abbrev segment_text : Component → String
segment_text root_dir = "/"
segment_text cur_dir = "."
segment_text parent_dir = ".."
segment_text (normal s) = s

abbrev after_segment : Component → Directory → String → String
after_segment root_dir below text = text
after_segment _ [] text = text
after_segment _ (_ ∷ _) text = "/" <> text

-- The path as text, with one slash between segments.
abbrev pub text_of : Directory → FilePath
text_of [] = ""
text_of (c ∷ []) = segment_text c
text_of (c ∷ root_dir ∷ []) = "/" <> segment_text c
text_of (c ∷ d ∷ cs) = text_of (d ∷ cs) <> ("/" <> segment_text c)

abbrev pub same_directory : Directory → Directory → Bool
same_directory d e = elim (lex (lex compare) (path_key d) (path_key e)) [
  | Ordering.eq ↦ true
  | _ ↦ false
]

-- `Path::parent` gives nothing for a root.
abbrev pub is_root : Component → Directory → Bool
is_root root_dir [] = true
is_root _ _ = false

-- `Path::ancestors`
unfoldable pub ancestors : Directory → List Directory
ancestors [] = [] ∷ []
ancestors (c ∷ cs) = let rest = ancestors cs in (c ∷ cs) ∷ (if is_root c cs then [] else rest)

-- The loop of `ancestor_directories`: it ends after the git root.
unfoldable pub until_root : Directory → List Directory → List Directory
until_root git_root [] = []
until_root git_root (d ∷ ds) =
    let rest = until_root git_root ds in d ∷ (if same_directory d git_root then [] else rest)

unfoldable pub ancestor_directories : Directory → Directory → List Directory
unfolding ancestors until_root
ancestor_directories target git_root = until_root git_root (ancestors target)

pub data DevEnvironment : Type 0 where
  no_environment direnv : DevEnvironment
  devenv : (root : Directory) → DevEnvironment
  nix_develop : (flake_root : Directory) → (attr : String) → DevEnvironment

pub data DevEnvMode : Type 0 where
  auto no_mode : DevEnvMode

pub record Surroundings : Type 0 where
  -- `directory.join(filename).is_file()`
  pub is_file : Directory → String → Bool
  -- `NixDevShellProbe::dev_shell_exists`
  pub dev_shell_exists : Directory → String → Result Error Bool

-- `Path::file_name`
abbrev pub file_name : Directory → Option String
file_name (normal name ∷ _) = some name
file_name _ = none

abbrev name_then_default : Option String → List String
name_then_default none = "default" ∷ []
name_then_default (some name) = if name == "default" then "default" ∷ [] else name ∷ "default" ∷ []

unfoldable pub nix_develop_candidate_attrs : Directory → Directory → List String
nix_develop_candidate_attrs target flake_root =
    if same_directory target flake_root
    then "default" ∷ []
    else name_then_default (file_name target)

module _ (host : Surroundings) where
  -- The directory of the nearest file of the name.
  unfoldable pub nearest_file : Directory → Directory → String → Option Directory
  unfolding ancestor_directories
  nearest_file target git_root filename =
      find (λ directory. host.is_file directory filename) (ancestor_directories target git_root)

  pub record DevEnvironmentDiscovery : Type 0 where
    pub envrc : Option Directory
    pub devenv_nix : Option Directory
    pub flake_nix : Option Directory

  unfoldable pub detect : Directory → Directory → DevEnvironmentDiscovery
  unfolding nearest_file
  detect target git_root = record {
    envrc = nearest_file target git_root ".envrc";
    devenv_nix = nearest_file target git_root "devenv.nix";
    flake_nix = nearest_file target git_root "flake.nix";
  }

  abbrev pub first_shell :
      Directory → String → Bool → Result Error DevEnvironment → Result Error DevEnvironment
  first_shell flake_root attr true rest = ok (nix_develop flake_root attr)
  first_shell flake_root attr false rest = rest

  -- The loop over the candidates.
  unfoldable pub try_attrs : Directory → List String → Result Error DevEnvironment
  try_attrs flake_root [] = ok no_environment
  try_attrs flake_root (attr ∷ attrs) = do
    there ← host.dev_shell_exists flake_root attr
    first_shell flake_root attr there (try_attrs flake_root attrs)

  unfoldable pub resolve_nix_develop : Directory → Directory → Result Error DevEnvironment
  unfolding try_attrs nix_develop_candidate_attrs
  resolve_nix_develop target flake_root =
      try_attrs flake_root (nix_develop_candidate_attrs target flake_root)

  abbrev pub by_flake : Directory → Option Directory → Result Error DevEnvironment
  by_flake target none = ok no_environment
  by_flake target (some flake_root) = resolve_nix_develop target flake_root

  abbrev by_devenv : Directory → Option Directory → Option Directory → Result Error DevEnvironment
  by_devenv target (some root) flake = ok (devenv root)
  by_devenv target none flake = by_flake target flake

  abbrev pub by_envrc :
      Directory
      → Option Directory
      → Option Directory
      → Option Directory
      → Result Error DevEnvironment
  by_envrc target (some _) root flake = ok direnv
  by_envrc target none root flake = by_devenv target root flake

  -- `DevEnvironmentDiscovery::resolve_with_probe`
  unfoldable pub resolve_with_probe :
      DevEnvironmentDiscovery → Directory → Result Error DevEnvironment
  unfolding resolve_nix_develop
  resolve_with_probe found target = by_envrc target found.envrc found.devenv_nix found.flake_nix

  -- `DevEnvironment::resolve`
  unfoldable pub resolve_environment :
      DevEnvMode → FilePath → FilePath → Result Error DevEnvironment
  unfolding detect resolve_with_probe
  resolve_environment no_mode target git_root = ok no_environment
  resolve_environment auto target git_root =
      resolve_with_probe (detect (directory_of target) (directory_of git_root))
        (directory_of target)

abbrev pub path_flake_ref : Directory → String
path_flake_ref path = "path:" <> text_of path

-- `DevEnvironment::wrap_argv`
unfoldable pub wrap_argv : DevEnvironment → List String → List String
wrap_argv no_environment argv = argv
wrap_argv direnv argv = "direnv" ∷ "exec" ∷ "." ∷ argv
wrap_argv (devenv _) argv = "devenv" ∷ "shell" ∷ "--no-tui" ∷ "--" ∷ argv
wrap_argv (nix_develop flake_root attr) argv =
    "nix"
    ∷ "develop"
    ∷ "--no-write-lock-file"
    ∷ (path_flake_ref flake_root <> ("#" <> attr))
    ∷ "--command"
    ∷ argv
