-- ===== src/Examples/Servers.antt =====
-- Servers that answer, and a wait for one that is ready after 400 milliseconds. The world is a clock.
use agentbox_nix.Shared.{
  string_discrete, ℕ, ◌+◌, ◌≡◌, ◌↔◌, refl, true, false, none, some, List, [], ◌∷◌, eqb, leb, ok,
  arith, if◌then◌else◌,
}
use agentbox_nix.Errors.{codex}
use agentbox_nix.Runtime.{parse_runtime_kind}
use agentbox_nix.Text.{is_blank, parse_unsigned}
use agentbox_nix.Podman.{published_attach_endpoint}
use agentbox_nix.Metadata.{required_label_value, managed_session_labels}
use agentbox_nix.Session.Labels.{attach_from_session_labels}
use agentbox_nix.Session.Status.{discover_attach_endpoint_from_inspect}
use agentbox_nix.Server.Health.{
  Network, healthy, unhealthy, unreachable, check_health, check_health_iff, SomeAnswersWell,
  health_check,
}
use agentbox_nix.Server.Waiter.{WaitHost, wait_for_server_endpoint, server_ready, managed_session}
use agentbox_nix.Server.Waiter.Laws.{
  IsClock, wait_for_server_endpoint-Ends, wait_for_server_endpoint_ready, Ends, SeenHealthy,
}
use agentbox_nix.Examples.Data.{workspace, endpoint, managed_inspect}

-- The first address refuses the connection.
abbrev network : Network
network = record {
  Address = ℕ;
  Stream = ℕ;
  to_socket_addrs = λ place. some (0 ∷ 1 ∷ []);
  connect = λ address. if eqb address 0 then none else some address;
  get_response = λ place stream path. some (record { status_code = 200; body = [] });
  healthy_flag = λ body. some true;
}

check_health_iff_example : (check_health network codex endpoint ≡ healthy) ↔ (
    (addresses : List ℕ) × (network.to_socket_addrs endpoint ≡ some addresses)
    × SomeAnswersWell network (health_check codex) endpoint addresses)
check_health_iff_example = check_health_iff network codex endpoint

abbrev host : WaitHost ℕ
host = record {
  is_interrupted = λ s. (false, s);
  now = λ s. (s, s);
  sleep = λ d s. s + d;
  inspect_one = λ name s. (ok managed_inspect, s);
  probe = λ runtime place s. (if leb 400 s then healthy else unhealthy unreachable, s);
  messages = record { to_string = λ error. ""; not_reachable_yet = λ place. "" };
}

clock : IsClock host (λ s. s)
clock = record {
  now_reads = λ s. refl;
  now_later = λ s. omega arith;
  interrupt_later = λ s. omega arith;
  inspect_later = λ name s. omega arith;
  probe_later = λ runtime place s. omega arith;
  sleep_later = λ d s. omega arith;
}

wait_for_server_endpoint-Ends_example :
    Ends host workspace codex managed_session
      (λ s. s)
      clock
      (wait_for_server_endpoint ℕ host workspace codex managed_session 0)
wait_for_server_endpoint-Ends_example =
    wait_for_server_endpoint-Ends host workspace codex managed_session (λ s. s) clock 0

becomes_ready :
    (wait_for_server_endpoint ℕ host workspace codex managed_session 0).0
    ≡ some (ok (server_ready endpoint))
unfolding wait_for_server_endpoint discover_attach_endpoint_from_inspect attach_from_session_labels
    required_label_value managed_session_labels string_discrete is_blank parse_runtime_kind
    parse_unsigned published_attach_endpoint
becomes_ready = refl

wait_for_server_endpoint_ready_example : SeenHealthy host workspace codex managed_session endpoint
wait_for_server_endpoint_ready_example =
    wait_for_server_endpoint_ready host workspace codex managed_session 0 endpoint becomes_ready
