-- ===== src/Preflight/HostState.antt =====
-- src/runtime/host_state.rs and the host-state tables of src/runtime/profile: directories of the host
-- that a runtime keeps its state in. An environment variable's value may not be UTF-8.
use Prim.Native.String.{◌++◌ as ◌<>◌}
use agentbox_nix.Shared.{
  Char, code, String, Bool, false, Option, none, some, List, [], ◌∷◌, eqb, or_option, Result, ok,
  err, ◌>>=◌, ◌==◌, string_eq, if◌then◌else◌,
}
use agentbox_nix.Text.{chars}
use agentbox_nix.Errors.{
  Error, RuntimeKind, opencode, codex, relative_environment_path, environment_path_not_utf8,
}
use agentbox_nix.Paths.{FilePath, is_absolute}
use agentbox_nix.Launch.Spec.{RuntimeRunMode, managed_session, transient_server, foreground}

pub data RuntimeHostStateSource : Type 0 where
  environment_or_home :
      (environment_variable : String) → (home : List String) → RuntimeHostStateSource
  home_only : (home : List String) → RuntimeHostStateSource
  xdg_or_home : (xdg_variable : String) → (xdg home : List String) → RuntimeHostStateSource

pub data RuntimeHostStateDestination : Type 0 where
  fixed : String → RuntimeHostStateDestination
  source_path_when_environment :
      (environment_variable fallback : String) → RuntimeHostStateDestination

pub record RuntimeHostStateContainerEnvironment : Type 0 where
  pub name : String
  pub source_environment_variable : String

pub record RuntimeHostStateMount : Type 0 where
  pub source : RuntimeHostStateSource
  pub product_name : String
  pub description : String
  pub destination : RuntimeHostStateDestination
  pub container_environment : Option RuntimeHostStateContainerEnvironment

pub record RuntimeHostStateSourceResolution : Type 0 where
  pub source : Option FilePath
  pub source_environment_variable : Option String

-- A `PathBuf` of the environment.
pub data OsPath : Type 0 where
  utf8 : FilePath → OsPath
  not_utf8 : OsPath

abbrev ends_with_slash : List Char → Bool
ends_with_slash [] = false
ends_with_slash (c ∷ []) = eqb (code c) b'/'
ends_with_slash (c ∷ d ∷ cs) = ends_with_slash (d ∷ cs)

-- `Utf8PathBuf::push`
unfoldable pub push_component : FilePath → String → FilePath
push_component path component =
    if is_absolute component
    then component
    else if path == ""
    then component
    else if ends_with_slash (chars path)
    then path <> component
    else path <> ("/" <> component)

abbrev pub push_all : FilePath → List String → FilePath
push_all path [] = path
push_all path (component ∷ components) = push_all (push_component path component) components

abbrev pub utf8_join : OsPath → List String → Option FilePath
utf8_join not_utf8 components = none
utf8_join (utf8 path) components = some (push_all path components)

abbrev and_join : Option OsPath → List String → Option FilePath
and_join none components = none
and_join (some base) components = utf8_join base components

-- What the environment gives.
abbrev pub Variables : Type 0
Variables = String → Option OsPath

unfoldable pub resolve_home_source : Variables → List String → Option FilePath
resolve_home_source environment home = and_join (environment "HOME") home

abbrev source_of_value : String → Option OsPath → Result Error (Option FilePath)
source_of_value variable none = ok none
source_of_value variable (some not_utf8) = err (environment_path_not_utf8 variable)
source_of_value variable (some (utf8 path)) = ok (if path == "" then none else some path)

unfoldable pub environment_source : String → Variables → Result Error (Option FilePath)
environment_source variable environment = source_of_value variable (environment variable)

abbrev found_or_home : String → Option FilePath → Option FilePath → RuntimeHostStateSourceResolution
found_or_home variable none home = record { source = home; source_environment_variable = none }
found_or_home variable (some path) home = record {
  source = some path;
  source_environment_variable = some variable;
}

-- `RuntimeHostStateSource::resolve`
unfoldable pub resolve_source :
    RuntimeHostStateSource → Variables → Result Error RuntimeHostStateSourceResolution
unfolding resolve_home_source environment_source
resolve_source (environment_or_home variable home) environment = do
  found ← environment_source variable environment
  ok (found_or_home variable found (resolve_home_source environment home))
resolve_source (home_only home) environment =
    ok
      (record { source = resolve_home_source environment home; source_environment_variable = none })
resolve_source (xdg_or_home xdg_variable xdg home) environment = ok (record {
  source =
      or_option (and_join (environment xdg_variable) xdg) (resolve_home_source environment home);
  source_environment_variable = none;
})

abbrev pub snapshot_key : RuntimeHostStateDestination → String
snapshot_key (fixed destination) = destination
snapshot_key (source_path_when_environment variable fallback) = fallback

abbrev pub is_variable : Option String → String → Bool
is_variable none variable = false
is_variable (some found) variable = found == variable

-- `RuntimeHostStateDestination::resolve`
unfoldable pub resolve_destination :
    RuntimeHostStateDestination → FilePath → Option String → Result Error String
resolve_destination (fixed destination) source from = ok destination
resolve_destination (source_path_when_environment variable fallback) source from =
    if is_variable from variable
    then if is_absolute source then ok source else err (relative_environment_path variable source)
    else ok fallback

abbrev entry_for :
    RuntimeHostStateContainerEnvironment → FilePath → Option String → Option (String × String)
entry_for environment source from =
    if is_variable from environment.source_environment_variable
    then some (environment.name, source)
    else none

abbrev entry_if :
    Option RuntimeHostStateContainerEnvironment
    → FilePath
    → Option String
    → Option (String × String)
entry_if none source from = none
entry_if (some environment) source from = entry_for environment source from

-- `container_environment_for`
unfoldable pub container_environment_for :
    RuntimeHostStateMount → FilePath → Option String → Option (String × String)
container_environment_for mount source from = entry_if mount.container_environment source from

abbrev pub codex_config_destination : String
codex_config_destination = "/home/user/.codex"

abbrev pub codex_server_mount : RuntimeHostStateMount
codex_server_mount = record {
  source = environment_or_home "CODEX_HOME" (".codex" ∷ []);
  product_name = "Codex";
  description = "configuration";
  destination = source_path_when_environment "CODEX_HOME" codex_config_destination;
  container_environment =
      some (record { name = "CODEX_HOME"; source_environment_variable = "CODEX_HOME" });
}

abbrev pub codex_foreground_mount : RuntimeHostStateMount
codex_foreground_mount = record {
  source = home_only (".codex" ∷ []);
  product_name = "Codex";
  description = "configuration";
  destination = fixed codex_config_destination;
  container_environment = none;
}

abbrev pub opencode_config_mount : RuntimeHostStateMount
opencode_config_mount = record {
  source = xdg_or_home "XDG_CONFIG_HOME" ("opencode" ∷ []) (".config" ∷ "opencode" ∷ []);
  product_name = "OpenCode";
  description = "configuration";
  destination = fixed "/home/user/.config/opencode";
  container_environment = none;
}

abbrev pub opencode_data_mount : RuntimeHostStateMount
opencode_data_mount = record {
  source = xdg_or_home "XDG_DATA_HOME" ("opencode" ∷ []) (".local" ∷ "share" ∷ "opencode" ∷ []);
  product_name = "OpenCode";
  description = "data";
  destination = fixed "/home/user/.local/share/opencode";
  container_environment = none;
}

-- `RuntimeKind::host_state_mounts`
abbrev pub host_state_mounts : RuntimeKind → RuntimeRunMode → List RuntimeHostStateMount
host_state_mounts opencode mode = opencode_config_mount ∷ opencode_data_mount ∷ []
host_state_mounts codex foreground = codex_foreground_mount ∷ []
host_state_mounts codex managed_session = codex_server_mount ∷ []
host_state_mounts codex transient_server = codex_server_mount ∷ []
