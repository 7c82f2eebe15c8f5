-- ===== src/RuntimeImage/Lifecycle.antt =====
-- src/commands/runtime/image_lifecycle.rs: a default image is updated on request, and ensured before a
-- launch. The environment is the source's trait, over the world's state; feedback is output.
pub mod Laws
pub mod Ensured
use agentbox_nix.Shared.{
  ℕ, String, Bool, true, false, Option, none, some, filter_option, map_option, Result, ok, err,
  map_err, ◌==◌, string_eq,
}
use agentbox_nix.Shared.Effects.{Run, ◌>>=◌, ◌>>◌, return}
use agentbox_nix.Errors.{Error, RuntimeKind, default_image_not_built}
use agentbox_nix.Paths.{FilePath}
use agentbox_nix.Clean.Image.{default_image}
use agentbox_nix.RuntimeImage.{
  RuntimeImageState, package_spec, with_latest_check, new_state, RuntimeImageUpdatePlan,
  refresh_state, rebuild, plan_runtime_image_update,
}

pub record RuntimeImageEnvironment (State : Type 0) : Type 0 where
  pub image_exists : String → Run Error State Bool
  pub read_state : RuntimeKind → Run Error State (Option RuntimeImageState)
  pub write_state : RuntimeKind → RuntimeImageState → Run Error State (Unit {0})
  pub resolve_latest_version : String → Run Error State String
  pub build_image : RuntimeKind → String → Run Error State (Unit {0})
  pub now_unix_seconds : Run Error State ℕ

pub data RuntimeImageUpdateOutcome : Type 0 where
  already_up_to_date : (image version : String) → RuntimeImageUpdateOutcome
  rebuilt : (image version : String) → RuntimeImageUpdateOutcome

-- `map_err` on what a call returns.
abbrev pub failing_as : {State A : Type 0} → (Error → Error) → Run Error State A → Run Error State A
failing_as f m s = let (result, after) = m s in (map_err f result, after)

module _ {State : Type 0} (context_hash : String)
    (environment : RuntimeImageEnvironment State) where
  unfoldable pub build_runtime_image_and_record_state :
      RuntimeKind → String → Run Error State (Unit {0})
  build_runtime_image_and_record_state runtime version = do
    environment.build_image runtime version
    now ← environment.now_unix_seconds
    environment.write_state runtime (new_state context_hash runtime version now now)

  abbrev pub carry_out :
      RuntimeKind → RuntimeImageUpdatePlan → Run Error State RuntimeImageUpdateOutcome
  carry_out runtime (refresh_state state latest_version) = do
    now ← environment.now_unix_seconds
    environment.write_state runtime (with_latest_check state latest_version now)
    return (already_up_to_date (default_image context_hash runtime) latest_version)
  carry_out runtime (rebuild version) = do
    build_runtime_image_and_record_state runtime version
    return (rebuilt (default_image context_hash runtime) version)

  -- `update_default_runtime_image_with`
  unfoldable pub update_default_runtime_image_with :
      RuntimeKind → Run Error State RuntimeImageUpdateOutcome
  unfolding build_runtime_image_and_record_state
  update_default_runtime_image_with runtime = do
    latest_version ← environment.resolve_latest_version (package_spec runtime).name
    image_exists ← environment.image_exists (default_image context_hash runtime)
    prior_state ← environment.read_state runtime
    carry_out runtime
        (plan_runtime_image_update context_hash runtime latest_version image_exists prior_state)

  unfoldable pub build_default_runtime_image : RuntimeKind → Run Error State String
  unfolding build_runtime_image_and_record_state
  build_default_runtime_image runtime = do
    latest_version ← environment.resolve_latest_version (package_spec runtime).name
    build_runtime_image_and_record_state runtime latest_version
    return latest_version

  unfoldable pub installed_version_if_known : RuntimeKind → String → Run Error State (Option String)
  installed_version_if_known runtime image = do
    state ← environment.read_state runtime
    return (map_option (λ s. s.installed_version) (filter_option (λ s. s.image == image) state))

  abbrev pub ensured : RuntimeKind → FilePath → String → Bool → Run Error State (Option String)
  ensured runtime workspace_root image true = installed_version_if_known runtime image
  ensured runtime workspace_root image false = do
    version ←
        failing_as (default_image_not_built image workspace_root)
          (build_default_runtime_image runtime)
    return (some version)

  -- `ensure_default_runtime_image_with`
  unfoldable pub ensure_default_runtime_image_with :
      RuntimeKind → FilePath → String → Run Error State (Option String)
  unfolding installed_version_if_known build_default_runtime_image
  ensure_default_runtime_image_with runtime workspace_root image =
      environment.image_exists image >>= ensured runtime workspace_root image

  -- `ensure_default_runtime_image`
  unfoldable pub ensure_default_runtime_image :
      RuntimeKind → FilePath → Run Error State (Option String)
  unfolding ensure_default_runtime_image_with
  ensure_default_runtime_image runtime workspace_root =
      ensure_default_runtime_image_with runtime workspace_root (default_image context_hash runtime)
