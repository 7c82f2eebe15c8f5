-- ===== src/RuntimeImage.antt =====
-- src/commands/runtime/image_state.rs and image_plan.rs: what is recorded of a runtime's default image,
-- and when it has to be built again. The hash of the embedded image context is a parameter.
pub mod Labels
pub mod Lifecycle
use agentbox_nix.Shared.{
  ℕ, String, Bool, true, false, ◌&&◌, Option, none, some, filter_option, Result, ok, err, ◌==◌,
  string_eq,
}
use agentbox_nix.Shared.Effects.{Run, ◌>>=◌, return}
use agentbox_nix.Errors.{Error, RuntimeKind, opencode, codex}
use agentbox_nix.Runtime.{as_str}
use agentbox_nix.Clean.Image.{default_image}

pub record RuntimePackageSpec : Type 0 where
  pub name : String
  pub install_source : String
  pub build_arg : String

-- `RuntimeKind::package_spec`, of the profiles
abbrev pub package_spec : RuntimeKind → RuntimePackageSpec
package_spec opencode = record {
  name = "opencode-ai";
  install_source = "npm";
  build_arg = "OPENCODE_NPM_VERSION";
}
package_spec codex = record {
  name = "@openai/codex";
  install_source = "npm";
  build_arg = "CODEX_NPM_VERSION";
}

pub record RuntimeImageState : Type 0 where
  pub runtime : String
  pub package_name : String
  pub install_source : String
  pub image : String
  pub image_context_hash : String
  pub installed_version : String
  pub latest_seen_version : String
  pub latest_checked_at : ℕ
  pub image_built_at : ℕ

-- `RuntimeImageState::with_latest_check`
unfoldable pub with_latest_check : RuntimeImageState → String → ℕ → RuntimeImageState
with_latest_check state latest_version latest_checked_at = record state {
  latest_seen_version = latest_version;
  latest_checked_at = latest_checked_at;
}

pub data RuntimeImageUpdatePlan : Type 0 where
  refresh_state : (state : RuntimeImageState) → (latest_version : String) → RuntimeImageUpdatePlan
  rebuild : (version : String) → RuntimeImageUpdatePlan

abbrev pub plan_of : String → Option RuntimeImageState → RuntimeImageUpdatePlan
plan_of latest_version none = rebuild latest_version
plan_of latest_version (some state) = refresh_state state latest_version

module _ (context_hash : String) where
  -- `RuntimeImageState::new`
  unfoldable pub new_state :
      RuntimeKind → String → (latest_checked_at image_built_at : ℕ) → RuntimeImageState
  new_state runtime version latest_checked_at image_built_at = record {
    runtime = as_str runtime;
    package_name = (package_spec runtime).name;
    install_source = (package_spec runtime).install_source;
    image = default_image context_hash runtime;
    image_context_hash = context_hash;
    installed_version = version;
    latest_seen_version = version;
    latest_checked_at = latest_checked_at;
    image_built_at = image_built_at;
  }

  -- The filter of the prior state.
  abbrev pub is_current : RuntimeKind → String → Bool → RuntimeImageState → Bool
  is_current runtime latest_version image_exists state =
      image_exists
      && ((state.installed_version == latest_version)
          && ((state.image == default_image context_hash runtime)
              && (state.image_context_hash == context_hash)))

  unfoldable pub plan_runtime_image_update :
      RuntimeKind → String → Bool → Option RuntimeImageState → RuntimeImageUpdatePlan
  plan_runtime_image_update runtime latest_version image_exists prior_state =
      plan_of latest_version
        (filter_option (is_current runtime latest_version image_exists) prior_state)

-- The file of a runtime's state. Its JSON and the file system are parameters.
pub record RuntimeImageStateStore (State : Type 0) : Type 0 where
  pub read : RuntimeKind → Run Error State (Option RuntimeImageState)
  pub remove : RuntimeKind → Run Error State (Unit {0})

module _ {State : Type 0} (store : RuntimeImageStateStore State) where
  abbrev remove_same : RuntimeKind → String → Option RuntimeImageState → Run Error State (Unit {0})
  remove_same runtime image none = return tt
  remove_same runtime image (some state) = elim (state.image == image) [
    | true ↦ store.remove runtime
    | false ↦ return tt
  ]

  -- `RuntimeImageStateStore::remove_if_image`
  unfoldable pub remove_if_image : RuntimeKind → String → Run Error State (Unit {0})
  remove_if_image runtime image = store.read runtime >>= remove_same runtime image
