-- ===== src/Server/Waiter.antt =====
-- src/commands/server_readiness.rs and its children: the wait for a server that was just started. The
-- state is the world's: Podman, the clock, the interrupt flag and the network are parameters, and the
-- texts of messages too. Durations are in milliseconds. The loop runs on fuel.
pub mod Laws
use agentbox_nix.Shared.{
  ℕ, zero, suc, ◌+◌, String, Bool, true, false, not, Option, none, some, leb, Result, ok, err,
  ok_or, ◌>>=◌, if◌then◌else◌,
}
use agentbox_nix.Errors.{
  Error, RuntimeKind, server_exited, transient_without_port, server_unreachable,
}
use agentbox_nix.Runtime.{AttachEndpoint, attach_spec, tcp_port_key}
use agentbox_nix.Podman.{PodmanContainerInspect, published_attach_endpoint}
use agentbox_nix.Workspace.{WorkspaceIdentity}
use agentbox_nix.Session.Status.{discover_attach_endpoint_from_inspect}
use agentbox_nix.Server.Health.{RuntimeHealth, healthy, unhealthy, is_healthy}

-- `SERVER_READINESS_TIMEOUT`, `SERVER_READINESS_POLL_INTERVAL`
abbrev pub server_readiness_timeout : ℕ
server_readiness_timeout = 90000

abbrev pub server_readiness_poll_interval : ℕ
server_readiness_poll_interval = 200

pub data ServerEndpointContext : Type 0 where
  managed_session transient_run_container : ServerEndpointContext

pub data ServerEndpointState : Type 0 where
  ready : AttachEndpoint → ServerEndpointState
  pending : (reason : String) → ServerEndpointState

pub data ServerEndpointWait : Type 0 where
  server_ready : AttachEndpoint → ServerEndpointWait
  interrupted : ServerEndpointWait

unfoldable pub discover_attach_endpoint_from_runtime_inspect :
    RuntimeKind → PodmanContainerInspect → Result Error AttachEndpoint
discover_attach_endpoint_from_runtime_inspect runtime inspect = do
  port ← published_attach_endpoint inspect.ports (attach_spec runtime)
  ok_or port (transient_without_port (tcp_port_key (attach_spec runtime)))

abbrev pub endpoint_of_context :
    ServerEndpointContext → RuntimeKind → PodmanContainerInspect → Result Error AttachEndpoint
endpoint_of_context managed_session runtime inspect = discover_attach_endpoint_from_inspect inspect
endpoint_of_context transient_run_container runtime inspect =
    discover_attach_endpoint_from_runtime_inspect runtime inspect

pub record Messages : Type 0 where
  pub to_string : Error → String
  pub not_reachable_yet : AttachEndpoint → String

module _ (State : Type 0) where
  pub record WaitHost : Type 0 where
    pub is_interrupted : State → Bool × State
    pub now : State → ℕ × State
    pub sleep : ℕ → State → State
    pub inspect_one : String → State → Result Error PodmanContainerInspect × State
    pub probe : RuntimeKind → AttachEndpoint → State → RuntimeHealth × State
    pub messages : Messages

  abbrev probed : Messages → AttachEndpoint → RuntimeHealth → ServerEndpointState
  probed messages endpoint healthy = ready endpoint
  probed messages endpoint (unhealthy reason) = pending (messages.not_reachable_yet endpoint)

  abbrev endpoint_state :
      WaitHost → RuntimeKind → Result Error AttachEndpoint → State → ServerEndpointState × State
  endpoint_state host runtime (err error) state = (pending (host.messages.to_string error), state)
  endpoint_state host runtime (ok endpoint) state =
      let (health, next) = host.probe runtime endpoint state in
      (probed host.messages endpoint health, next)

  -- `inspect_server_endpoint`; an error where the container has ended.
  unfoldable pub inspect_server_endpoint :
      WaitHost
      → WorkspaceIdentity
      → RuntimeKind
      → ServerEndpointContext
      → PodmanContainerInspect
      → State
      → Result Error ServerEndpointState × State
  inspect_server_endpoint host workspace runtime context inspect state =
      let exited = server_exited workspace.container_name workspace.canonical_git_root runtime in
      let (found, next) =
        endpoint_state host runtime (endpoint_of_context context runtime inspect) state in
      if inspect.running then (ok found, next) else (err exited, state)

  -- What a round of the loop comes to: a result, or the reason to go on.
  pub data Round : Type 0 where
    finished : Result Error ServerEndpointWait → Round
    again : (last_error : String) → Round

  abbrev pub after_endpoint : Result Error ServerEndpointState → Round
  after_endpoint (err error) = finished (err error)
  after_endpoint (ok (ready endpoint)) = finished (ok (server_ready endpoint))
  after_endpoint (ok (pending reason)) = again reason

  abbrev after_inspect :
      WaitHost
      → WorkspaceIdentity
      → RuntimeKind
      → ServerEndpointContext
      → Result Error PodmanContainerInspect
      → State
      → Round × State
  after_inspect host workspace runtime context (err error) state =
      (again (host.messages.to_string error), state)
  after_inspect host workspace runtime context (ok inspect) state =
      let (result, next) = inspect_server_endpoint host workspace runtime context inspect state in
      (after_endpoint result, next)

  unfoldable pub wait_round :
      WaitHost
      → WorkspaceIdentity
      → RuntimeKind
      → ServerEndpointContext
      → (deadline : ℕ) → (last_error : Option String) → State
      → Round × State
  unfolding inspect_server_endpoint
  wait_round host workspace runtime context deadline last_error state =
      let (stop, asked) = host.is_interrupted state in
      let (time, read) = host.now asked in
      let (inspected, seen) = host.inspect_one workspace.container_name read in
      let unreachable =
        server_unreachable workspace.container_name workspace.canonical_git_root last_error in
      if stop
      then (finished (ok interrupted), asked)
      else if leb deadline time
      then (finished (err unreachable), read)
      else after_inspect host workspace runtime context inspected seen

  -- The end of a round: `none` where the fuel ran out.
  abbrev go_on :
      WaitHost
      → ℕ
      → (Option String → State → Option (Result Error ServerEndpointWait) × State)
      → Round × State
      → Option (Result Error ServerEndpointWait) × State
  go_on host poll rest (finished result, state) = (some result, state)
  go_on host poll rest (again reason, state) = rest (some reason) (host.sleep poll state)

  unfoldable pub wait_loop :
      WaitHost
      → WorkspaceIdentity
      → RuntimeKind
      → ServerEndpointContext
      → (poll deadline : ℕ) → (fuel : ℕ) → Option String
      → State
      → Option (Result Error ServerEndpointWait) × State
  unfolding wait_round
  wait_loop host workspace runtime context poll deadline zero last_error state = (none, state)
  wait_loop host workspace runtime context poll deadline (suc fuel) last_error state =
      go_on host poll (wait_loop host workspace runtime context poll deadline fuel)
        (wait_round host workspace runtime context deadline last_error state)

  -- `ServerEndpointWaiter::wait_with`
  unfoldable pub wait_with :
      WaitHost
      → (timeout poll : ℕ) → WorkspaceIdentity
      → RuntimeKind
      → ServerEndpointContext
      → (fuel : ℕ) → State
      → Option (Result Error ServerEndpointWait) × State
  unfolding wait_loop
  wait_with host timeout poll workspace runtime context fuel state =
      let (time, next) = host.now state in
      wait_loop host workspace runtime context poll (time + timeout) fuel none next

  -- With the constants of the program and enough fuel for them.
  unfoldable pub wait_for_server_endpoint :
      WaitHost
      → WorkspaceIdentity
      → RuntimeKind
      → ServerEndpointContext
      → State
      → Option (Result Error ServerEndpointWait) × State
  unfolding wait_with
  wait_for_server_endpoint host workspace runtime context state =
      wait_with host server_readiness_timeout server_readiness_poll_interval workspace runtime
        context 451 state
