-- ===== src/Launch/Interrupted.antt =====
-- src/commands/start/interrupt.rs: what an interrupted start removes. Podman is a parameter; the texts
-- of the message are values.
pub mod Laws
use agentbox_nix.Shared.{
  ◌≡◌, refl, sym, ap, subst, ◌∙◌, String, Bool, true, false, not, Option, none, some, List, [], ◌∷◌,
  ◌++◌, map, push_some, Result, ok, err, if◌then◌else◌, is_empty, arith, Bool-cases, inl, inr, ◌⊎◌,
}
use agentbox_nix.Workspace.{WorkspaceIdentity}
use agentbox_nix.Stop.Cleanup.{
  Host, ManagedContainerCleanup, ContainerCleanupIssue, ContainerCleanupVerification, removed,
  still_exists, verification_failed, stop_and_verify, container_removed, interrupted_issues,
}

pub data InterruptedFailure : Type 0 where
  container_issue : ContainerCleanupIssue → InterruptedFailure
  volume_not_removed : (error : String) → InterruptedFailure
  skipped_as_container_exists skipped_as_not_verified : InterruptedFailure

pub record InterruptedRunCleanup : Type 0 where
  pub failures : List InterruptedFailure
  pub cache_volume_removed : Bool

-- `interrupted_cache_volume_skip_message`
abbrev pub skip_reason : ContainerCleanupVerification → Option InterruptedFailure
skip_reason removed = none
skip_reason still_exists = some skipped_as_container_exists
skip_reason (verification_failed _) = some skipped_as_not_verified

-- `InterruptedRunCleanup::render`
pub data InterruptedReport : Type 0 where
  preserved_existing_volume removed_new_volume no_new_volume_remained : InterruptedReport
  partial_cleanup_failed : List InterruptedFailure → InterruptedReport

abbrev pub volume_detail : Bool → Bool → InterruptedReport
volume_detail true _ = preserved_existing_volume
volume_detail false true = removed_new_volume
volume_detail false false = no_new_volume_remained

abbrev pub render : InterruptedRunCleanup → Bool → InterruptedReport
render cleanup cache_volume_existed_before =
    if is_empty cleanup.failures
    then volume_detail cache_volume_existed_before cleanup.cache_volume_removed
    else partial_cleanup_failed cleanup.failures

module _ (State : Type 0) where
  pub record InterruptHost : Type 0 where
    pub podman : Host State
    pub remove_volume : String → State → Result String (Unit {0}) × State
    pub is_interrupted : State → Bool × State

  abbrev pub volume_outcome :
      List InterruptedFailure → Result String (Unit {0}) → InterruptedRunCleanup
  volume_outcome failures (ok _) = record { failures = failures; cache_volume_removed = true }
  volume_outcome failures (err error) = record {
    failures = failures ++ volume_not_removed error ∷ [];
    cache_volume_removed = false;
  }

  abbrev pub after_container :
      InterruptHost
      → String
      → Bool
      → ManagedContainerCleanup
      → State
      → InterruptedRunCleanup × State
  after_container host name existed_before cleanup state =
      let failures = map container_issue (interrupted_issues cleanup) in
      let (volume, after) = host.remove_volume name state in
      if container_removed cleanup
      then (if not existed_before
          then (volume_outcome failures volume, after)
          else (record { failures = failures; cache_volume_removed = false }, state))
      else if not existed_before
      then (
        record {
          failures = failures ++ push_some (skip_reason cleanup.verification) [];
          cache_volume_removed = false;
        },
        state,
      )
      else (record { failures = failures; cache_volume_removed = false }, state)

  -- `InterruptedRunCleanup::run`
  unfoldable pub run_cleanup :
      InterruptHost → WorkspaceIdentity → Bool → State → InterruptedRunCleanup × State
  run_cleanup host workspace existed_before state =
      let (cleanup, after) = stop_and_verify State host.podman workspace.container_name state in
      after_container host workspace.container_name existed_before cleanup after

  unfoldable pub interrupted_error :
      InterruptHost → WorkspaceIdentity → Bool → State → InterruptedReport × State
  unfolding run_cleanup
  interrupted_error host workspace existed_before state =
      let (cleanup, after) = run_cleanup host workspace existed_before state in
      (render cleanup existed_before, after)

  -- `InterruptedRunCleanupScope::check_interrupted`
  unfoldable pub check_start_interrupted :
      InterruptHost → WorkspaceIdentity → Bool → State → Result InterruptedReport (Unit {0}) × State
  unfolding interrupted_error
  check_start_interrupted host workspace existed_before state =
      let (stop, asked) = host.is_interrupted state in
      let (report, after) = interrupted_error host workspace existed_before asked in
      if stop then (err report, after) else (ok tt, asked)
