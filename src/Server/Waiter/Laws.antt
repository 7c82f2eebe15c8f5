-- ===== src/Server/Waiter/Laws.antt =====
-- The wait for a server ends, and a server that it calls ready was seen healthy.
use agentbox_nix.Shared.{
  ℕ, zero, suc, ◌+◌, ◌*◌, ◌≤◌, ◌≡◌, ◌≢◌, refl, ap, ◌⊎◌, inl, inr, String, Bool, true, false, Option,
  none, some, leb, Result, ok, err, arith, Bool-cases, one_value, subst, if◌then◌else◌,
}
use agentbox_nix.Errors.{Error, RuntimeKind, server_exited, server_unreachable}
use agentbox_nix.Runtime.{AttachEndpoint}
use agentbox_nix.Podman.{PodmanContainerInspect}
use agentbox_nix.Workspace.{WorkspaceIdentity}
use agentbox_nix.Server.Health.{RuntimeHealth, healthy, unhealthy}
use agentbox_nix.Server.Waiter.{
  server_readiness_timeout, server_readiness_poll_interval, ServerEndpointContext,
  ServerEndpointWait, server_ready, interrupted, endpoint_of_context, WaitHost, probed,
  endpoint_state, inspect_server_endpoint, Round, finished, again, after_endpoint, after_inspect,
  wait_round, go_on, wait_loop, wait_with, wait_for_server_endpoint, ready, pending,
  ServerEndpointState,
}

-- What the wait relies on: time does not run backwards, and a sleep lasts as long as it is asked to.
pub record IsClock {State : Type 0} (host : WaitHost State) (time : State → ℕ) : Type 0 where
  pub now_reads : (s : State) → (host.now s).0 ≡ time s
  pub now_later : (s : State) → time s ≤ time (host.now s).1
  pub interrupt_later : (s : State) → time s ≤ time (host.is_interrupted s).1
  pub inspect_later : (name : String) (s : State) → time s ≤ time (host.inspect_one name s).1
  pub probe_later :
      (runtime : RuntimeKind) (endpoint : AttachEndpoint) (s : State)
      → time s ≤ time (host.probe runtime endpoint s).1
  pub sleep_later : (d : ℕ) (s : State) → time s + d ≤ time (host.sleep d s)

module _ {State : Type 0} (host : WaitHost State) (workspace : WorkspaceIdentity)
    (runtime : RuntimeKind) (context : ServerEndpointContext) where
  module _ (time : State → ℕ) (clock : IsClock host time) where
    endpoint_later :
        (found : Result Error AttachEndpoint) (s : State)
        → time s ≤ time (endpoint_state State host runtime found s).1
    endpoint_later (err error) s = omega arith
    endpoint_later (ok endpoint) s = clock.probe_later runtime endpoint s

    inspect_later :
        (inspect : PodmanContainerInspect) (s : State)
        → time s ≤ time (inspect_server_endpoint State host workspace runtime context inspect s).1
    unfolding inspect_server_endpoint
    inspect_later inspect s = elim (Bool-cases inspect.running) [
      | inl runs ↦ simp (runs) (endpoint_later (endpoint_of_context context runtime inspect) s)
      | inr ended ↦ simp (ended) (omega arith)
    ]

    after_later :
        (found : Result Error PodmanContainerInspect) (s : State)
        → time s ≤ time (after_inspect State host workspace runtime context found s).1
    after_later (err error) s = omega arith
    after_later (ok inspect) s = inspect_later inspect s

    -- The three states that a round passes through before it looks at the container.
    module _ (s : State) where
      abbrev asked : State
      asked = (host.is_interrupted s).1

      abbrev read : State
      read = (host.now asked).1

      abbrev seen : State
      seen = (host.inspect_one workspace.container_name read).1

    round_later :
        (deadline : ℕ) (last : Option String) (s : State)
        → time s ≤ time (wait_round State host workspace runtime context deadline last s).1
    unfolding wait_round
    round_later deadline last s = ground (
      arith,
      clock.interrupt_later s,
      clock.now_later (asked s),
      clock.inspect_later workspace.container_name (read s),
      after_later (host.inspect_one workspace.container_name (read s)).0 (seen s),
    )

    late_round :
        (deadline : ℕ) (last : Option String) (s : State)
        → deadline ≤ time s
        → (reason : String)
        → (wait_round State host workspace runtime context deadline last s).0 ≢ again reason
    unfolding wait_round
    late_round deadline last s late reason h =
        ground (arith, clock.interrupt_later s, clock.now_reads (asked s))

    abbrev pub Ends : Option (Result Error ServerEndpointWait) × State → Type 0
    Ends outcome = (result : Result Error ServerEndpointWait) × (outcome.0 ≡ some result)

    -- A round that goes on was before the deadline, and what comes after it ends.
    go_on-Ends :
        (poll : ℕ) (rest : Option String → State → Option (Result Error ServerEndpointWait) × State)
        (round : Round State × State)
        → ((reason : String)
            → round.0 ≡ again reason
            → Ends (rest (some reason) (host.sleep poll round.1)))
        → Ends (go_on State host poll rest round)
    go_on-Ends poll rest (finished result, s) ih = (result, refl)
    go_on-Ends poll rest (again reason, s) ih = ih reason refl

    wait_loop-Ends :
        (poll deadline n : ℕ) (last : Option String) (s : State)
        → deadline ≤ time s + n * poll
        → Ends (wait_loop State host workspace runtime context poll deadline (suc n) last s)
    unfolding wait_loop
    wait_loop-Ends poll deadline zero last s h =
        go_on-Ends poll (wait_loop State host workspace runtime context poll deadline zero)
          (wait_round State host workspace runtime context deadline last s)
          (λ reason e. absurd (late_round deadline last s (omega arith) reason e))
    wait_loop-Ends poll deadline (suc n) last s h =
        let round = wait_round State host workspace runtime context deadline last s in
        go_on-Ends poll (wait_loop State host workspace runtime context poll deadline (suc n)) round
          (λ reason e.
            wait_loop-Ends poll deadline n (some reason) (host.sleep poll round.1)
              (grind (arith, round_later deadline last s, clock.sleep_later poll round.1)))

    -- The wait ends with a result within 451 rounds, whatever the container and the network do, if
    -- time does not run backwards and a sleep lasts as long as it is asked to.
    pub wait_for_server_endpoint-Ends :
        (s : State) → Ends (wait_for_server_endpoint State host workspace runtime context s)
    unfolding wait_for_server_endpoint wait_with
    wait_for_server_endpoint-Ends s =
        wait_loop-Ends server_readiness_poll_interval ((host.now s).0 + server_readiness_timeout)
          450 none (host.now s).1 (omega (arith, clock.now_reads s, clock.now_later s))

  -- A state of the world in which the container ran, and its endpoint was found and healthy.
  abbrev pub SeenHealthy : AttachEndpoint → Type 0
  SeenHealthy endpoint =
      (s : State) × (inspect : PodmanContainerInspect) × ((host.inspect_one workspace.container_name
          s).0
        ≡ ok inspect)
      × (inspect.running ≡ true)
      × (endpoint_of_context context runtime inspect ≡ ok endpoint)
      × ((host.probe runtime endpoint (host.inspect_one workspace.container_name s).1).0 ≡ healthy)

  probed_ready :
      (health : RuntimeHealth) (found endpoint : AttachEndpoint)
      → probed State host.messages found health ≡ ready endpoint
      → (found ≡ endpoint) × (health ≡ healthy)
  probed_ready healthy found endpoint h = (ground arith, refl)
  probed_ready (unhealthy reason) found endpoint h = cc

  ready_endpoint :
      (found : Result Error AttachEndpoint) (s : State) (endpoint : AttachEndpoint)
      → (endpoint_state State host runtime found s).0 ≡ ready endpoint
      → (found ≡ ok endpoint) × ((host.probe runtime endpoint s).0 ≡ healthy)
  ready_endpoint (err error) s endpoint h = cc
  ready_endpoint (ok found) s endpoint h =
      let (same, well) = probed_ready (host.probe runtime found s).0 found endpoint h in
      (ap ok same, subst (λ e. (host.probe runtime e s).0 ≡ healthy) same well)

  state_ready :
      (found : ServerEndpointState) (endpoint : AttachEndpoint)
      → after_endpoint State (ok found) ≡ finished (ok (server_ready endpoint))
      → found ≡ ready endpoint
  state_ready (ready found) endpoint h = ground arith
  state_ready (pending reason) endpoint h = cc

  running_ready :
      (running : Bool) (found : ServerEndpointState × State) (exited : Error) (s : State)
      (endpoint : AttachEndpoint)
      → after_endpoint State
          (if◌then◌else◌ {A = Result Error ServerEndpointState × State} running
            (ok found.0, found.1)
            (err exited, s)).0
        ≡ finished (ok (server_ready endpoint))
      → (running ≡ true) × (found.0 ≡ ready endpoint)
  running_ready true found exited s endpoint h = (refl, state_ready found.0 endpoint h)
  running_ready false found exited s endpoint h = cc

  inspected_ready :
      (inspect : PodmanContainerInspect) (s : State) (endpoint : AttachEndpoint)
      → after_endpoint State
          (inspect_server_endpoint State host workspace runtime context inspect s).0
        ≡ finished (ok (server_ready endpoint))
      → (inspect.running ≡ true)
        × (endpoint_of_context context runtime inspect ≡ ok endpoint)
        × ((host.probe runtime endpoint s).0 ≡ healthy)
  unfolding inspect_server_endpoint
  inspected_ready inspect s endpoint h =
      let (runs, found) =
        running_ready inspect.running
          (endpoint_state State host runtime (endpoint_of_context context runtime inspect) s)
          (server_exited workspace.container_name workspace.canonical_git_root runtime) s endpoint
          h in
      let (discovered, well) =
        ready_endpoint (endpoint_of_context context runtime inspect) s endpoint found in
      (runs, discovered, well)

  after_ready :
      (found : Result Error PodmanContainerInspect) (s : State) (endpoint : AttachEndpoint)
      → (host.inspect_one workspace.container_name s).0 ≡ found
      → (after_inspect State host workspace runtime context found
          (host.inspect_one workspace.container_name s).1).0
        ≡ finished (ok (server_ready endpoint))
      → SeenHealthy endpoint
  after_ready (err error) s endpoint e h = cc
  after_ready (ok inspect) s endpoint e h =
      let (runs, discovered, well) =
        inspected_ready inspect (host.inspect_one workspace.container_name s).1 endpoint h in
      (s, inspect, e, runs, discovered, well)

  guarded_ready :
      (stop late : Bool) (round : Round State × State) (asked read : State) (unreachable : Error)
      (endpoint : AttachEndpoint)
      → (if◌then◌else◌ {A = Round State × State} stop
          (finished (ok interrupted), asked)
          (if late then (finished (err unreachable), read) else round)).0
        ≡ finished (ok (server_ready endpoint))
      → round.0 ≡ finished (ok (server_ready endpoint))
  guarded_ready true late round asked read unreachable endpoint h = absurd (ground arith)
  guarded_ready false true round asked read unreachable endpoint h = absurd (ground arith)
  guarded_ready false false round asked read unreachable endpoint h = h

  round_ready :
      (deadline : ℕ) (last : Option String) (s : State) (endpoint : AttachEndpoint)
      → (wait_round State host workspace runtime context deadline last s).0
        ≡ finished (ok (server_ready endpoint))
      → SeenHealthy endpoint
  unfolding wait_round
  round_ready deadline last s endpoint h =
      let asked = (host.is_interrupted s).1 in
      let read = (host.now asked).1 in
      let found = host.inspect_one workspace.container_name read in
      after_ready found.0 read endpoint refl (
        guarded_ready (host.is_interrupted s).0 (leb deadline (host.now asked).0)
          (after_inspect State host workspace runtime context found.0 found.1) asked read
          (server_unreachable workspace.container_name workspace.canonical_git_root last) endpoint
          h)

  go_on_ready :
      (poll : ℕ) (rest : Option String → State → Option (Result Error ServerEndpointWait) × State)
      (round : Round State × State) (endpoint : AttachEndpoint)
      → (go_on State host poll rest round).0 ≡ some (ok (server_ready endpoint))
      → (round.0 ≡ finished (ok (server_ready endpoint)))
        ⊎ ((reason : String) × (rest (some reason) (host.sleep poll round.1)).0
              ≡ some (ok (server_ready endpoint)))
  go_on_ready poll rest (finished result, s) endpoint h = inl (ap finished (one_value refl h))
  go_on_ready poll rest (again reason, s) endpoint h = inr (reason, h)

  loop_ready :
      (poll deadline fuel : ℕ) (last : Option String) (s : State) (endpoint : AttachEndpoint)
      → (wait_loop State host workspace runtime context poll deadline fuel last s).0
        ≡ some (ok (server_ready endpoint))
      → SeenHealthy endpoint
  unfolding wait_loop
  loop_ready poll deadline zero last s endpoint h = cc
  loop_ready poll deadline (suc fuel) last s endpoint h =
      let round = wait_round State host workspace runtime context deadline last s in
      let later = loop_ready poll deadline fuel in
      elim (go_on_ready poll (wait_loop State host workspace runtime context poll deadline fuel)
        round endpoint h) [
          | inl now ↦ round_ready deadline last s endpoint now
          | inr t ↦ later (some t.0) (host.sleep poll round.1) endpoint t.1
        ]

  -- An endpoint that the wait calls ready was seen healthy: in some state of the world Podman said
  -- that the container runs, its ports or labels gave this endpoint, and the probe found it healthy.
  pub wait_for_server_endpoint_ready :
      (s : State) (endpoint : AttachEndpoint)
      → (wait_for_server_endpoint State host workspace runtime context s).0
        ≡ some (ok (server_ready endpoint))
      → SeenHealthy endpoint
  unfolding wait_for_server_endpoint wait_with
  wait_for_server_endpoint_ready s endpoint h =
      loop_ready server_readiness_poll_interval ((host.now s).0 + server_readiness_timeout) 451 none
        (host.now s).1 endpoint h
