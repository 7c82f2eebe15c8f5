-- ===== src/Session/Discovery.antt =====
-- src/session/discovery: from the containers that `podman ps` lists to session records. Inspecting a
-- container is an argument, and an error of it ends the discovery.
pub mod Scope
pub mod Duplicates
pub mod Live
pub mod Launched
pub mod Scoped
use agentbox_nix.Shared.{
  ℕ, String, Option, none, some, List, [], ◌∷◌, Result, ok, err, ◌>>=◌, to_option, unwrap_or, Bool,
  true, false, if◌then◌else◌,
}
use agentbox_nix.Errors.{Error, AgentboxContainerKind}
use agentbox_nix.Paths.{FilePath}
use agentbox_nix.Podman.{PodmanPsContainer, PodmanContainerInspect}
use agentbox_nix.Session.Record.{SessionRecord}
use agentbox_nix.Session.Labels.{from_metadata}
use agentbox_nix.Session.Status.{GitRootProbe, endpoint_report, derive_status}
use Scope.{
  ContainerDiscoveryScope, agentbox_owned, SessionDiscoveryScope, for_git_root,
  should_inspect_ps_candidate, SessionCollector, new_collector, collect, finish, ps_candidate,
  managed_sessions, everything,
}

abbrev first_name : Option (List String) → String → String
first_name none id = id
first_name (some []) id = id
first_name (some (name ∷ names)) id = name

module _ (sha256 : String → List ℕ) (probe : GitRootProbe) where
  -- `InspectedAgentboxContainer::from_podman` and `into_session_record`
  unfoldable pub build_session_record :
      PodmanPsContainer → PodmanContainerInspect → AgentboxContainerKind → SessionRecord
  unfolding from_metadata endpoint_report derive_status
  build_session_record container inspect kind =
      let report = from_metadata sha256 inspect.labels in
      let endpoint = endpoint_report report inspect in
      record {
        container_id = container.id;
        container_name = first_name container.names container.id;
        container_kind = kind;
        metadata = inspect.labels;
        attach_endpoint = to_option endpoint;
        container_running = inspect.running;
        status = derive_status (record {
          label_report = report;
          attach_endpoint = endpoint;
          container_running = inspect.running;
          mounts = inspect.mounts;
          git_root_probe = probe;
        });
      }

  module _ (inspect_container : String → Result Error PodmanContainerInspect) where
    -- One round of the loop for a container that agentbox owns.
    unfoldable pub inspect_candidate :
        PodmanPsContainer → AgentboxContainerKind → SessionCollector → Result Error SessionCollector
    inspect_candidate container kind collector =
        if should_inspect_ps_candidate collector.scope container
        then (do
          inspect ← inspect_container container.id
          ok (collect collector (build_session_record container inspect kind)))
        else ok collector

    unfoldable pub discover_step :
        Option (PodmanPsContainer × AgentboxContainerKind)
        → SessionCollector
        → Result Error SessionCollector
    unfolding inspect_candidate
    discover_step none collector = ok collector
    discover_step (some (container, kind)) collector = inspect_candidate container kind collector

    unfoldable pub discover_loop :
        ContainerDiscoveryScope
        → List PodmanPsContainer
        → SessionCollector
        → Result Error SessionCollector
    unfolding discover_step
    discover_loop owned [] collector = ok collector
    discover_loop owned (container ∷ containers) collector = do
      collector' ← discover_step (ps_candidate container owned) collector
      discover_loop owned containers collector'

    -- `discover_sessions_from_ps_with_git_root_probe`
    unfoldable pub discover_sessions_from_ps :
        List PodmanPsContainer
        → SessionDiscoveryScope
        → ContainerDiscoveryScope
        → Result Error (List SessionRecord)
    unfolding discover_loop finish
    discover_sessions_from_ps containers scope owned = do
      collector ← discover_loop owned containers (new_collector scope)
      finish collector
