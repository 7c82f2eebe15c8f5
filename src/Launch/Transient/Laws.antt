-- ===== src/Launch/Transient/Laws.antt =====
-- A transient run removes its container however it ends, and ends as its client did.
use agentbox_nix.Shared.{
  ℕ, ◌<◌, ◌≤◌, ◌≡◌, refl, ap, ◌∙◌, sym, ◌⊎◌, ◌↔◌, inl, inr, Bool, true, false, eqb, Result, ok, err,
  arith, Bool-cases, if◌then◌else◌,
}
use agentbox_nix.Shared.Effects.{Run, ◌>>=◌, attempt, continue_with, inspect_result}
use agentbox_nix.Errors.{Error, RuntimeKind, run_interrupted}
use agentbox_nix.Runtime.{AttachEndpoint}
use agentbox_nix.Workspace.{WorkspaceIdentity}
use agentbox_nix.Server.Waiter.{ServerEndpointWait, server_ready, interrupted}
use agentbox_nix.Launch.Detached.{
  DetachedServerLifecycle, after_wait, await_server, launch_detached_server, fail_with,
}
use agentbox_nix.Launch.Transient.{
  ExitStatus, exited, signaled, RunHost, cleanup_transient_container, check_interrupted,
  transient_server_lifecycle, finish_host_client_run, run_and_finish, execute, client_outcome,
  exit_failure, failure_exit, into_error_with_cleanup_result, with_cleanup_result, program_status,
}

module _ {State : Type 0} (host : RunHost State) (workspace : WorkspaceIdentity)
    (runtime : RuntimeKind) where
  -- The last thing that was done to the world was the removal of the container.
  abbrev pub IsCleaned : State → Type 0
  IsCleaned last =
      (before : State) × (last ≡ (cleanup_transient_container host workspace runtime before).1)

  abbrev check : Run Error State (Unit {0})
  check = check_interrupted host workspace runtime

  abbrev lifecycle : DetachedServerLifecycle State
  lifecycle = transient_server_lifecycle host workspace runtime

  -- A run either goes on with a value, or has removed the container.
  abbrev GoesOn : {A : Type 0} → Result Error A × State → Type 0
  GoesOn {A} outcome = ((a : A) × (outcome.0 ≡ ok a)) ⊎ IsCleaned outcome.1

  checked_GoesOn :
      (stop : Bool) (error : Error) (asked before : State)
      → GoesOn (
          if◌then◌else◌ {A = Result Error (Unit {0}) × State} stop
            (err error, (cleanup_transient_container host workspace runtime before).1)
            (ok tt, asked))
  checked_GoesOn true error asked before = inr (before, refl)
  checked_GoesOn false error asked before = inl (tt, refl)

  check-GoesOn : (s : State) → GoesOn (check s)
  unfolding check_interrupted
  check-GoesOn s =
      checked_GoesOn (host.is_interrupted s).0
        (with_cleanup_result host workspace runtime
          (run_interrupted workspace.container_name workspace.canonical_git_root)
          (host.is_interrupted s).1).0
        (host.is_interrupted s).1 (host.is_interrupted s).1

  bind-GoesOn :
      {A B : Type 0} (outcome : Result Error A × State) (f : A → Run Error State B)
      → GoesOn outcome
      → ((a : A) (s : State) → GoesOn (f a s))
      → GoesOn (continue_with outcome f)
  bind-GoesOn (ok a, s) f h k = k a s
  bind-GoesOn (err e, s) f (inl (a, p)) k = cc
  bind-GoesOn (err e, s) f (inr cleaned) k = inr cleaned

  check_stops :
      (s : State)
      → (host.is_interrupted s).0 ≡ true
      → (f : Run Error State AttachEndpoint) → IsCleaned (continue_with (check s) (λ _. f)).1
  unfolding check_interrupted
  check_stops s stop f = rw stop ((host.is_interrupted s).1, refl)

  -- The flag stays set: a wait that it has ended leaves it set.
  abbrev pub StaysInterrupted : Type 0
  StaysInterrupted =
      (s : State)
      → (host.launch.wait_for_server_endpoint s).0 ≡ ok interrupted
      → (host.is_interrupted (host.launch.wait_for_server_endpoint s).1).0 ≡ true

  module _ (sticky : StaysInterrupted) where
    waited-GoesOn :
        (s : State) (outcome : Result Error ServerEndpointWait × State)
        → host.launch.wait_for_server_endpoint s ≡ outcome
        → GoesOn (
            inspect_result outcome
              (λ error. fail_with (lifecycle.readiness_error error))
              (after_wait host.launch lifecycle))
    waited-GoesOn s (err error, t) e = inr (_, refl)
    waited-GoesOn s (ok (server_ready endpoint), t) e =
        bind-GoesOn (check t) (λ _. λ u. (ok endpoint, u)) (check-GoesOn t)
          (λ a u. inl (endpoint, refl))
    waited-GoesOn s (ok interrupted, t) e = inr (
        check_stops t
          (ap (λ (o : Result Error ServerEndpointWait × State). (host.is_interrupted o.1).0) (sym e)
            ∙ sticky s (ap (λ (o : Result Error ServerEndpointWait × State). o.0) e))
          _)

    awaited-GoesOn : (s : State) → GoesOn (await_server host.launch lifecycle s)
    unfolding await_server
    awaited-GoesOn s = waited-GoesOn s (host.launch.wait_for_server_endpoint s) refl

    finished_IsCleaned :
        (endpoint : AttachEndpoint) (s : State)
        → IsCleaned (run_and_finish host workspace runtime endpoint s).1
    unfolding finish_host_client_run
    finished_IsCleaned endpoint s = ((host.run_client endpoint s).1, refl)

    end-IsCleaned :
        (outcome : Result Error AttachEndpoint × State)
        → GoesOn outcome
        → IsCleaned (continue_with outcome (run_and_finish host workspace runtime)).1
    end-IsCleaned (ok endpoint, s) h = finished_IsCleaned endpoint s
    end-IsCleaned (err e, s) (inl (a, p)) = cc
    end-IsCleaned (err e, s) (inr cleaned) = cleaned

    started-GoesOn :
        (outcome : Result Error (Unit {0}) × State)
        (failed : Error → Run Error State AttachEndpoint)
        → outcome.0 ≡ ok tt
        → GoesOn
            (inspect_result outcome failed (λ _. check >>= λ _. await_server host.launch lifecycle))
    started-GoesOn (ok _, t) failed h =
        bind-GoesOn (check t) (λ _. await_server host.launch lifecycle) (check-GoesOn t)
          (λ a u. awaited-GoesOn u)
    started-GoesOn (err error, t) failed h = cc

    installed-GoesOn :
        (outcome : Result Error (Unit {0}) × State)
        (failed : Error → Run Error State AttachEndpoint)
        → outcome.0 ≡ ok tt
        → (host.launch.run_detached outcome.1).0 ≡ ok tt
        → GoesOn (
            continue_with outcome (λ _.
              attempt host.launch.run_detached failed
                (λ _. check >>= λ _. await_server host.launch lifecycle)))
    installed-GoesOn (ok _, t) failed h started =
        started-GoesOn (host.launch.run_detached t) failed started
    installed-GoesOn (err error, t) failed h started = cc

    -- Once the container of a transient run has been started, the last thing that the run does is to
    -- remove it, however the run goes on: an interrupt, a server that is never ready, or the end of
    -- the client. The interrupt flag stays set once it is set.
    pub execute-IsCleaned :
        (s : State)
        → (host.launch.install_interrupt s).0 ≡ ok tt
        → (host.launch.run_detached (host.launch.install_interrupt s).1).0 ≡ ok tt
        → IsCleaned (execute host workspace runtime s).1
    unfolding execute launch_detached_server
    execute-IsCleaned s installed started =
        end-IsCleaned (launch_detached_server host.launch lifecycle s)
          (installed-GoesOn (host.launch.install_interrupt s) _ installed started)

  abbrev pub removal : State → Result Error (Unit {0})
  removal s = (cleanup_transient_container host workspace runtime s).0

  outcome_iff :
      (result : Result Error ExitStatus) (cleanup : Result Error (Unit {0}))
      → (client_outcome host workspace runtime result cleanup ≡ ok tt)
        ↔ ((result ≡ ok (exited 0)) × (cleanup ≡ ok tt))
  unfolding exit_failure failure_exit
  outcome_iff (err error) cleanup = (λ h. cc, λ (h, k). cc)
  outcome_iff (ok signaled) cleanup = (λ h. cc, λ (h, k). cc)
  outcome_iff (ok (exited code)) cleanup = elim (Bool-cases (eqb code 0)) [
    | inl zero ↦ (λ h. (ground arith, ground arith), λ (h, k). ground arith)
    | inr other ↦ (λ h. cc, λ (h, k). ground arith)
  ]

  coded :
      (code : ℕ) (cleanup : Result Error (Unit {0}))
      → 0 < code
      → code ≤ 255
      → program_status (client_outcome host workspace runtime (ok (exited code)) cleanup) ≡ code
  unfolding exit_failure failure_exit into_error_with_cleanup_result program_status
  coded code (ok _) positive byte = ground arith
  coded code (err error) positive byte = ground arith

  -- A client that ends with a code of a byte other than 0 gives its code to the program, whether or
  -- not the removal of the container succeeds.
  pub finish_host_client_run_status :
      (code : ℕ) (s : State)
      → 0 < code
      → code ≤ 255
      → program_status (finish_host_client_run host workspace runtime (ok (exited code)) s).0 ≡ code
  unfolding finish_host_client_run
  finish_host_client_run_status code s positive byte = coded code (removal s) positive byte

  -- The end of a client's run succeeds exactly when the client ended with 0 and the removal of the
  -- container succeeds.
  pub finish_host_client_run_iff :
      (result : Result Error ExitStatus) (s : State)
      → ((finish_host_client_run host workspace runtime result s).0 ≡ ok tt)
        ↔ ((result ≡ ok (exited 0)) × (removal s ≡ ok tt))
  unfolding finish_host_client_run
  finish_host_client_run_iff result s = outcome_iff result (removal s)
