-- ===== src/Launch/Transient.antt =====
-- src/commands/transient_run.rs and exit_status.rs, with `cleanup_transient_container` and
-- `combine_error_with_cleanup_result` of container_cleanup.rs: a container that lives as long as one
-- client. The state is the world's; Podman, the interrupt flag and the client are parameters.
pub mod Laws
use agentbox_nix.Shared.{
  ℕ, String, Bool, true, false, Option, none, some, eqb, leb, Result, ok, err, if◌then◌else◌,
}
use agentbox_nix.Shared.Effects.{Run, ◌>>=◌, return, raise, attempt, continue_with}
use agentbox_nix.Errors.{
  Error, RuntimeKind, exit_code, exit_code_with_message, combined, transient_not_cleaned_up,
  with_container_logs, run_interrupted, transient_start_failed, host_client_failed,
}
use agentbox_nix.Runtime.{AttachEndpoint}
use agentbox_nix.Workspace.{WorkspaceIdentity}
use agentbox_nix.Stop.Cleanup.{Host, ContainerCleanupFailure, stop_and_verify, remaining_failure}
use agentbox_nix.Launch.Detached.{DetachedServerLifecycle, LaunchHost, launch_detached_server}

-- How a process ended, as Unix reports it.
pub data ExitStatus : Type 0 where
  exited : (code : ℕ) → ExitStatus
  signaled : ExitStatus

pub data CommandFailureExit : Type 0 where
  failed_with : (code : ℕ) → CommandFailureExit
  by_signal : CommandFailureExit

-- `exit_code`: `u8::try_from`
abbrev pub byte_code : ℕ → Option ℕ
byte_code code = if leb code 255 then some code else none

abbrev exit_of_code : Option ℕ → CommandFailureExit
exit_of_code none = by_signal
exit_of_code (some code) = failed_with code

-- `CommandFailureExit::from_status`
unfoldable pub failure_exit : ExitStatus → Option CommandFailureExit
failure_exit signaled = some by_signal
failure_exit (exited code) = if eqb code 0 then none else some (exit_of_code (byte_code code))

pub record CommandExitFailure : Type 0 where
  pub exit : CommandFailureExit
  pub error : Error

abbrev failure_with :
    (ExitStatus → Error) → ExitStatus → Option CommandFailureExit → Option CommandExitFailure
failure_with error status none = none
failure_with error status (some exit) = some (record { exit = exit; error = error status })

-- `CommandExitFailure::from_status`
unfoldable pub exit_failure : ExitStatus → (ExitStatus → Error) → Option CommandExitFailure
unfolding failure_exit
exit_failure status error = failure_with error status (failure_exit status)

unfoldable pub into_direct_error : CommandExitFailure → Error
into_direct_error failure = elim failure.exit [
  | failed_with code ↦ exit_code code
  | by_signal ↦ failure.error
]

abbrev pub combine_error_with_cleanup_result : Error → Result Error (Unit {0}) → Error
combine_error_with_cleanup_result error (ok _) = error
combine_error_with_cleanup_result error (err cleanup_error) = combined error cleanup_error

abbrev code_error : ℕ → Error → Result Error (Unit {0}) → Error
code_error code error (ok _) = exit_code code
code_error code error (err cleanup_error) = exit_code_with_message code error cleanup_error

unfoldable pub into_error_with_cleanup_result : CommandExitFailure → Result Error (Unit {0}) → Error
into_error_with_cleanup_result failure cleanup = elim failure.exit [
  | failed_with code ↦ code_error code failure.error cleanup
  | by_signal ↦ combine_error_with_cleanup_result failure.error cleanup
]

abbrev cleanup_outcome : String → Option ContainerCleanupFailure → Result Error (Unit {0})
cleanup_outcome container none = ok tt
cleanup_outcome container (some failure) = err (transient_not_cleaned_up container)

pub record RunHost (State : Type 0) : Type 0 where
  pub podman : Host State
  pub launch : LaunchHost State
  pub is_interrupted : State → Bool × State
  -- `podman.logs_tail`, `none` for an error
  pub logs_tail : String → State → Option String × State
  pub run_client : AttachEndpoint → State → Result Error ExitStatus × State

module _ {State : Type 0} (host : RunHost State) (workspace : WorkspaceIdentity)
    (runtime : RuntimeKind) where
  abbrev container : String
  container = workspace.container_name

  unfoldable pub cleanup_transient_container : Run Error State (Unit {0})
  cleanup_transient_container s =
      let (cleanup, after) = stop_and_verify State host.podman container s in
      (cleanup_outcome container (remaining_failure cleanup container), after)

  -- `TransientRun::with_cleanup_result`
  abbrev pub with_cleanup_result : Error → State → Error × State
  with_cleanup_result error s =
      let (cleanup, after) = cleanup_transient_container s in
      (combine_error_with_cleanup_result error cleanup, after)

  -- `TransientRun::check_interrupted`
  unfoldable pub check_interrupted : Run Error State (Unit {0})
  check_interrupted s =
      let (stop, asked) = host.is_interrupted s in
      let (error, after) =
        with_cleanup_result (run_interrupted container workspace.canonical_git_root) asked in
      if stop then (err error, after) else (ok tt, asked)

  -- `error_with_container_logs`
  abbrev pub error_with_container_logs : Error → State → Error × State
  error_with_container_logs error s =
      let (logs, after) = host.logs_tail container s in
      (with_container_logs container error logs, after)

  abbrev pub transient_readiness_error : Error → State → Error × State
  transient_readiness_error error s =
      let (with_logs, after) = error_with_container_logs error s in
      with_cleanup_result with_logs after

  -- `TransientServerLifecycle`
  abbrev pub transient_server_lifecycle : DetachedServerLifecycle State
  transient_server_lifecycle = record {
    check_interrupted = check_interrupted;
    run_detached_error =
        λ error s. (transient_start_failed container workspace.canonical_git_root error, s);
    readiness_error = transient_readiness_error;
  }

  abbrev exit_outcome :
      Option CommandExitFailure → Result Error (Unit {0}) → Result Error (Unit {0})
  exit_outcome none cleanup = cleanup
  exit_outcome (some failure) cleanup = err (into_error_with_cleanup_result failure cleanup)

  abbrev pub client_outcome :
      Result Error ExitStatus → Result Error (Unit {0}) → Result Error (Unit {0})
  client_outcome (err error) cleanup = err (combine_error_with_cleanup_result error cleanup)
  client_outcome (ok status) cleanup =
      exit_outcome (exit_failure status (λ _. host_client_failed runtime)) cleanup

  -- `TransientRun::finish_host_client_run`: the container is removed first.
  unfoldable pub finish_host_client_run : Result Error ExitStatus → Run Error State (Unit {0})
  unfolding cleanup_transient_container
  finish_host_client_run status s =
      let (cleanup, after) = cleanup_transient_container s in (client_outcome status cleanup, after)

  abbrev pub run_and_finish : AttachEndpoint → Run Error State (Unit {0})
  run_and_finish endpoint s =
      let (status, after) = host.run_client endpoint s in finish_host_client_run status after

  -- `TransientRunLaunch::execute`
  unfoldable pub execute : Run Error State (Unit {0})
  unfolding finish_host_client_run
  execute = launch_detached_server host.launch transient_server_lifecycle >>= run_and_finish

-- `main` of src/lib.rs: the status that the program ends with.
unfoldable pub program_status : Result Error (Unit {0}) → ℕ
program_status (ok _) = 0
program_status (err (exit_code code)) = code
program_status (err (exit_code_with_message code _ _)) = code
program_status (err _) = 1
