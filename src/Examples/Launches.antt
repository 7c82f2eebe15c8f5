-- ===== src/Examples/Launches.antt =====
-- Launches at concrete inputs: a transient run that is interrupted while it waits, the arguments of a
-- detached run, and a host that is ready for codex.
use agentbox_nix.Shared.{
  ℕ, ◌+◌, ◌≡◌, ◌↔◌, refl, true, false, none, some, [], ◌∷◌, All, map, drop, string_discrete, leb,
  ok, arith, Succeeds,
}
use agentbox_nix.Errors.{codex}
use agentbox_nix.Config.{ResourceLimits}
use agentbox_nix.Clean.Image.{default_image}
use agentbox_nix.Server.Waiter.{interrupted}
use agentbox_nix.Launch.Spec.{
  RuntimeRunSpec, RuntimeInvocation, managed_session, run_spec, bind_mount, read_only_bind,
  create_spec, runtime_mounts_for_workspace,
}
use agentbox_nix.Metadata.{managed_session_labels}
use agentbox_nix.Digest.{hex_prefix}
use agentbox_nix.Workspace.{container_name_from_canonical_root_and_hash}
use agentbox_nix.Launch.Args.{run_detached_args}
use agentbox_nix.Launch.Args.Reading.{PodmanRun, is_option, read_run}
use agentbox_nix.Launch.Args.Values.{IsPlain}
use agentbox_nix.Launch.Args.Settings.{read_setting, asked_settings, IsNamed, read-run_spec}
use agentbox_nix.Launch.Transient.{RunHost, exited, execute, finish_host_client_run, program_status}
use agentbox_nix.Launch.Transient.Laws.{
  IsCleaned, StaysInterrupted, execute-IsCleaned, finish_host_client_run_status,
}
use agentbox_nix.Preflight.Snapshot.{PreflightHost, detect_with}
use agentbox_nix.Preflight.HostState.{utf8}
use agentbox_nix.Preflight.Check.{check_host_prerequisites}
use agentbox_nix.Preflight.Check.Laws.{IsReadyHost, check_host_prerequisites_iff}
use agentbox_nix.Examples.Data.{workspace, json}

-- The world counts what was done to it; the interrupt comes with the wait.
abbrev run_host : RunHost ℕ
run_host = record {
  podman = record {
    stop_ignore = λ name s. (ok tt, s + 1000);
    container_exists = λ name s. (ok false, s + 100);
    remove_attach_token = λ session s. s;
  };
  launch = record {
    install_interrupt = λ s. (ok tt, s);
    run_detached = λ s. (ok tt, s + 1);
    wait_for_server_endpoint = λ s. (ok interrupted, s + 10);
  };
  is_interrupted = λ s. (leb 10 s, s);
  logs_tail = λ name s. (none, s);
  run_client = λ place s. (ok (exited 0), s);
}

stays : StaysInterrupted run_host workspace codex
stays s h = ground arith

execute-IsCleaned_example :
    IsCleaned run_host workspace codex (execute run_host workspace codex 0).1
execute-IsCleaned_example = execute-IsCleaned run_host workspace codex stays 0 refl refl

finish_host_client_run_status_example :
    program_status (finish_host_client_run run_host workspace codex (ok (exited 42)) 0).0 ≡ 42
finish_host_client_run_status_example =
    finish_host_client_run_status run_host workspace codex 42 0 (omega arith) (omega arith)

abbrev invocation : RuntimeInvocation
invocation = record { argv = "codex" ∷ "--detach" ∷ "app-server" ∷ []; workdir = "/w/app" }

abbrev limits : ResourceLimits
limits = record { cpus = none; memory = some (record { text = "4g" }) }

abbrev pub spec : RuntimeRunSpec
spec =
    run_spec "0123456789abcdef" json codex managed_session workspace
      (read_only_bind "/nix" "/nix" ∷ []) (bind_mount "/home/u/.codex" "/home/user/.codex" ∷ [])
      invocation [] limits

mounts-IsPlain : All IsPlain spec.create.mounts
unfolding run_spec create_spec runtime_mounts_for_workspace
    container_name_from_canonical_root_and_hash hex_prefix
mounts-IsPlain = ((refl, refl), ((refl, refl), ((refl, refl), ((refl, refl), tt))))

labels-IsNamed : All IsNamed spec.create.labels
unfolding run_spec create_spec managed_session_labels string_discrete
labels-IsNamed = (
  refl,
  (refl, (refl, (refl, (refl, (refl, (refl, (refl, (refl, (refl, (refl, (refl, tt))))))))))),
)

image_named : is_option spec.create.image ≡ false
unfolding run_spec create_spec default_image
image_named = refl

read-run_spec_example :
    (run : PodmanRun) × (read_run (drop 1 (run_detached_args workspace.container_name spec 100))
      ≡ some run)
    × (run.switches ≡ "--detach" ∷ "--rm" ∷ [])
    × (map read_setting run.options ≡ asked_settings workspace.container_name spec 100)
    × (run.image ≡ spec.create.image)
    × (run.command ≡ spec.create.command)
unfolding run_spec create_spec
read-run_spec_example =
    read-run_spec workspace.container_name spec 100 image_named mounts-IsPlain labels-IsNamed tt

abbrev host : PreflightHost
host = record {
  test_fixtures_enabled = false;
  command_exists = λ name. true;
  path_from_environment = λ variable. some (utf8 "/home/u");
  which = λ name. some "/run/current-system/sw/bin/nix";
  unix_socket_exists = λ path. true;
  symlink_or_path_exists = λ path. true;
  file_is_readable = λ path. true;
  resolve_path = λ path. path;
  path_reaches_mount_root = λ path root. false;
  path_status = λ path. record {
    exists = true;
    is_directory = true;
    readable = true;
    writable = true;
    searchable = true;
  };
}

check_host_prerequisites_iff_example :
    Succeeds
      (check_host_prerequisites (detect_with codex managed_session host) codex managed_session)
    ↔ IsReadyHost codex managed_session host
check_host_prerequisites_iff_example = check_host_prerequisites_iff codex managed_session host
