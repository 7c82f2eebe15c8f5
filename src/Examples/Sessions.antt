-- ===== src/Examples/Sessions.antt =====
-- Discovery, statuses, selection and groups at concrete inputs.
use agentbox_nix.Paths.{FilePath}
use agentbox_nix.Errors.{RuntimeKind}
use agentbox_nix.Runtime.{AttachEndpoint}
use agentbox_nix.Shared.{
  String, ◌≡◌, ◌≢◌, refl, ◌↔◌, true, false, none, some, List, [], ◌∷◌, All, filter, map, Result, ok,
  string_discrete,
}
use agentbox_nix.Text.{is_blank, decimal, parse_unsigned}
use agentbox_nix.Errors.{Error, managed, codex, not_running}
use agentbox_nix.Paths.{path_eq, path_compare, components, is_absolute}
use agentbox_nix.Podman.{PodmanPsContainer, PodmanContainerInspect, published_attach_endpoint}
use agentbox_nix.Config.{ResourceLimits}
use agentbox_nix.Launch.Spec.{RuntimeInvocation, bind_mount}
use agentbox_nix.Launch.Existing.{managed_server}
use agentbox_nix.Launch.Prepared.{LaunchFindings, prepared_run_spec}
use agentbox_nix.Runtime.{attach_spec, tcp_port_key}
use agentbox_nix.Metadata.{Labels, managed_value, agentbox_container_kind_from_labels}
use agentbox_nix.Metadata.Label
use agentbox_nix.Session.Record.{SessionRecord, running, failed, orphaned}
use agentbox_nix.Session.Status.{
  git_root_is_orphaned, has_volume_mount_destination, required_nix_cache_mount_destination,
}
use agentbox_nix.Session.Discovery.{build_session_record, discover_sessions_from_ps}
use agentbox_nix.Session.Discovery.Scoped.{Belongs, discover_sessions_from_ps-Belong}
use agentbox_nix.Session.Discovery.Live.{IsLive, build_session_record_running_iff}
use agentbox_nix.Session.Discovery.Launched.{managed_session_discovered}
use agentbox_nix.Session.Discovery.Scope.{
  mark_duplicate_sessions, GitRootDiscoveryScope, git_root_scope, agentbox_owned, ps_candidate,
  should_inspect_ps_candidate, new_collector, collect,
}
use agentbox_nix.Workspace.{git_root_hash12}
use agentbox_nix.Session.Discovery.Duplicates.{mark_duplicate_sessions_lem, marked}
use agentbox_nix.Session.Selection.{StableIdPrefixSelection, select_stable_id_prefix_with_noun}
use agentbox_nix.Session.Selection.Laws.{HasId, matches_prefix}
use agentbox_nix.Session.Selection.Unique.{select_stable_id_prefix_iff}
use agentbox_nix.Session.Collection.{partition_sessions_by_git_root, exact_git_root_matches}
use agentbox_nix.Session.Collection.Laws.{
  IsAscending, sessions_of, has_no_root, partition_sessions_lem,
}
use agentbox_nix.Examples.Data.{
  digest, length-digest, host, host_absolute, workspace, probe, json, endpoint, container,
  managed_inspect, inspect_of, session,
}
use agentbox_nix.Examples.Workspaces.{workspace_resolves}

standing : git_root_is_orphaned "/w" probe ≡ false
unfolding git_root_is_orphaned path_eq path_compare components is_absolute string_discrete
standing = refl

-- A launch that found an image of version 1.2.3, the host's Wayland socket and a signing key.
abbrev found : LaunchFindings
found = record {
  host_nix_mounts = [];
  runtime_mounts = [];
  runtime_environment = ("CODEX_HOME", "/home/user/.codex") ∷ [];
  runtime_image_version = some "1.2.3";
  wayland = some "/run/user/1000/wayland-0";
  ssh = record { mounts = bind_mount "/k" "/k" ∷ []; env = []; known_hosts = none };
}

abbrev invocation : RuntimeInvocation
invocation = record { argv = "codex" ∷ []; workdir = "/w/app" }

abbrev limits : ResourceLimits
limits = record { cpus = none; memory = some (record { text = "4g" }) }

abbrev launched : PodmanContainerInspect
launched = inspect_of (
    (prepared_run_spec "0123456789abcdef" json codex (managed_server false) workspace found
      invocation [] limits).create.labels)

mounted : has_volume_mount_destination launched.mounts required_nix_cache_mount_destination ≡ true
unfolding has_volume_mount_destination string_discrete
mounted = refl

published : published_attach_endpoint launched.ports (attach_spec codex) ≡ ok (some endpoint)
unfolding published_attach_endpoint tcp_port_key decimal string_discrete parse_unsigned is_blank
published = refl

managed_session_discovered_example :
    (agentbox_container_kind_from_labels launched.labels ≡ some managed)
    × ((build_session_record digest probe container launched managed).status ≡ running)
    × ((build_session_record digest probe container launched managed).attach_endpoint
        ≡ some endpoint)
managed_session_discovered_example =
    managed_session_discovered digest length-digest host host_absolute "/w/app" workspace
      workspace_resolves "0123456789abcdef" codex [] probe standing container launched refl mounted
      endpoint published json (managed_server false) found invocation limits refl refl

abbrev two_sessions : List SessionRecord
two_sessions =
    session "0a0000000000" "/w" "agentbox-a" running
    ∷ session "1b0000000000" "/v" "agentbox-b" running
    ∷ []

abbrev prefix : String
prefix = "0A"

abbrev selection : StableIdPrefixSelection
selection = record {
  id = "0a0000000000";
  sessions = session "0a0000000000" "/w" "agentbox-a" running ∷ [];
}

select_stable_id_prefix_iff_example :
    (select_stable_id_prefix_with_noun two_sessions prefix "managed session" ≡ ok selection) ↔ (
      (prefix ≢ "")
      × All (HasId prefix selection.id) two_sessions
      × (filter (matches_prefix prefix) two_sessions ≢ [])
      × (selection.sessions ≡ filter (matches_prefix prefix) two_sessions))
select_stable_id_prefix_iff_example =
    select_stable_id_prefix_iff two_sessions prefix "managed session" selection

build_session_record_running_iff_example :
    ((build_session_record digest probe container managed_inspect managed).status ≡ running) ↔ (
      (root directory : FilePath) × (kind : RuntimeKind) × (endpoint : AttachEndpoint) × IsLive
        digest probe managed_inspect root directory kind endpoint)
build_session_record_running_iff_example =
    build_session_record_running_iff digest probe container managed_inspect managed

abbrev three_sessions : List SessionRecord
three_sessions =
    session "020000000000" "/w" "agentbox-a" running
    ∷ session "020000000000" "/w/" "agentbox-b" orphaned
    ∷ session "020000000000" "/w" "agentbox-c" (failed (some not_running))
    ∷ []

mark_duplicate_sessions_lem_example :
    mark_duplicate_sessions three_sessions ≡ map (marked three_sessions) three_sessions
mark_duplicate_sessions_lem_example = mark_duplicate_sessions_lem three_sessions

partition_sessions_lem_example :
    IsAscending (partition_sessions_by_git_root three_sessions).rooted
    × ((q : FilePath)
        → sessions_of q (partition_sessions_by_git_root three_sessions).rooted
          ≡ exact_git_root_matches three_sessions q)
    × ((partition_sessions_by_git_root three_sessions).unrooted ≡ filter has_no_root three_sessions)
partition_sessions_lem_example = partition_sessions_lem three_sessions

abbrev root_scope : GitRootDiscoveryScope
root_scope = record { git_root = "/w"; git_root_hash = git_root_hash12 digest "/w" }

-- A container that kept only two of its labels.
abbrev marked_labels : Labels
marked_labels = (Label.managed, managed_value) ∷ (Label.git_root, "/w") ∷ []

abbrev inspect_marked : String → Result Error PodmanContainerInspect
inspect_marked id = ok (inspect_of marked_labels)

abbrev listed : PodmanPsContainer
listed = record container { labels = marked_labels }

abbrev discovered : SessionRecord
discovered = build_session_record digest probe listed (inspect_of marked_labels) managed

is_discovered :
    discover_sessions_from_ps digest probe inspect_marked
      (listed ∷ [])
      (git_root_scope root_scope)
      agentbox_owned
    ≡ ok (discovered ∷ [])
unfolding discover_sessions_from_ps string_discrete agentbox_container_kind_from_labels is_blank
    build_session_record path_eq components mark_duplicate_sessions path_compare is_absolute
    ps_candidate should_inspect_ps_candidate new_collector collect
is_discovered = refl

discover_sessions_from_ps-Belong_example : All (Belongs root_scope) (discovered ∷ [])
discover_sessions_from_ps-Belong_example =
    discover_sessions_from_ps-Belong root_scope digest probe inspect_marked (listed ∷ [])
      agentbox_owned (discovered ∷ []) is_discovered
