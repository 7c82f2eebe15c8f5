-- ===== src/Launch/Detached.antt =====
-- src/commands/detached_server.rs: a container is started, and its server awaited, with the interrupt
-- flag asked in between. The state is the world's; Podman and the flag are parameters, and the wait
-- is an argument (Server.Waiter).
use agentbox_nix.Shared.{err}
use agentbox_nix.Shared.Effects.{Run, ◌>>◌, return, raise, attempt}
use agentbox_nix.Errors.{Error, readiness_interrupted}
use agentbox_nix.Runtime.{AttachEndpoint}
use agentbox_nix.Server.Waiter.{ServerEndpointWait, server_ready, interrupted}

-- `DetachedServerLifecycle`, without its names for messages.
pub record DetachedServerLifecycle (State : Type 0) : Type 0 where
  pub check_interrupted : Run Error State (Unit {0})
  pub run_detached_error : Error → State → Error × State
  pub readiness_error : Error → State → Error × State

pub record LaunchHost (State : Type 0) : Type 0 where
  -- `CommandInterrupt::install`
  pub install_interrupt : Run Error State (Unit {0})
  pub run_detached : Run Error State (Unit {0})
  pub wait_for_server_endpoint : Run Error State ServerEndpointWait

-- An error that the lifecycle makes of another one.
abbrev pub fail_with : {State A : Type 0} → (State → Error × State) → Run Error State A
fail_with make s = let (error, after) = make s in (err error, after)

module _ {State : Type 0} (host : LaunchHost State)
    (lifecycle : DetachedServerLifecycle State) where
  abbrev pub after_wait : ServerEndpointWait → Run Error State AttachEndpoint
  after_wait (server_ready endpoint) = do lifecycle.check_interrupted; return endpoint
  after_wait interrupted = do lifecycle.check_interrupted; raise readiness_interrupted

  unfoldable pub await_server : Run Error State AttachEndpoint
  await_server =
      attempt host.wait_for_server_endpoint (λ error. fail_with (lifecycle.readiness_error error))
        after_wait

  unfoldable pub launch_detached_server : Run Error State AttachEndpoint
  unfolding await_server
  launch_detached_server = do
    host.install_interrupt
    attempt host.run_detached
        (λ error. do lifecycle.check_interrupted; fail_with (lifecycle.run_detached_error error))
        (λ _. do lifecycle.check_interrupted; await_server)
