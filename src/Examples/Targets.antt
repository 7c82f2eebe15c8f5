-- ===== src/Examples/Targets.antt =====
-- Targets of connect, restart, stop and health, and conflicts, at concrete inputs.
use agentbox_nix.Shared.{
  ◌≡◌, ◌≢◌, refl, ◌↔◌, false, none, some, List, [], ◌∷◌, All, length, ltb, filter, String, Result,
  ok, err, string_discrete,
}
use agentbox_nix.Text.{is_blank}
use agentbox_nix.Errors.{Error, managed, codex, restart, no_session_matches_restart_target}
use agentbox_nix.Podman.{PodmanContainerInspect}
use agentbox_nix.Paths.{path_eq, path_compare, components, is_absolute}
use agentbox_nix.Runtime.{parse_runtime_kind}
use agentbox_nix.Metadata.{required_label_value, get}
use agentbox_nix.Session.Record.{
  SessionRecord, running, runtime_kind, launch_directory, server_args, is_restartable_candidate,
}
use agentbox_nix.Session.Connectable.{ConnectableSession}
use agentbox_nix.Session.Restartable.{
  RestartableSession, prepare_restart_session, prepare_restart_session_iff,
}
use agentbox_nix.Session.Candidate.{candidate_value, restart_stable_id}
use agentbox_nix.Session.Selection.{collect_matches, select_stable_id_prefix_with_noun}
use agentbox_nix.Session.Selection.Laws.{HasId, matches_prefix}
use agentbox_nix.Session.Collection.{exact_git_root_matches}
use agentbox_nix.Session.Target.Input.{System, ResolvedSessionTarget, resolve, by_stable_id}
use agentbox_nix.Session.Target.Selected.{
  StableIdTargetSelection, single_recoverable_git_root, into_all_rooted_sessions,
}
use agentbox_nix.Session.Target.Selected.Laws.{IsRooted}
use agentbox_nix.Session.Target.Stop.{StopStableIdTarget, by_id, plan_by_id}
use agentbox_nix.Session.Target.Stop.Laws.{plan_by_id_lem}
use agentbox_nix.Session.Target.Restart.{RestartSessionTargetPlan, select_session_candidate}
use agentbox_nix.Session.Target.Restart.Laws.{
  locked_sessions, Matches, select_session_candidate_lem,
}
use agentbox_nix.Session.Target.Health.{HealthSessionTargetPlan, select_sessions}
use agentbox_nix.Session.Target.Health
use agentbox_nix.Session.Conflict.{ManagedContainerConflict}
use agentbox_nix.Examples.Data.{
  digest, host, workspace, probe, json, endpoint, managed_inspect, session,
}

abbrev pub a : SessionRecord
a = session "0a0000000000" "/w" "agentbox-a" running

abbrev b : SessionRecord
b = session "1b0000000000" "/v" "agentbox-b" running

abbrev sessions : List SessionRecord
sessions = a ∷ b ∷ []

abbrev connectable : ConnectableSession
connectable = record {
  session = a;
  runtime = codex;
  endpoint = endpoint;
  launch_directory = "/w/app";
}

abbrev pub restartable : RestartableSession
restartable = record { session = a; runtime = codex; launch_directory = "/w/app"; server_args = [] }

prepare_restart_session_iff_example : (prepare_restart_session json a ≡ ok restartable) ↔ (
    (a.container_kind ≡ managed)
    × (a.status ≡ running)
    × (runtime_kind a ≡ some codex)
    × (launch_directory a ≡ some "/w/app")
    × (server_args json a.metadata ≡ ok [])
    × (a ≡ a))
prepare_restart_session_iff_example = prepare_restart_session_iff json a restartable

a_is_offered : candidate_value restart_stable_id a ≡ some "0a0000000000"
unfolding candidate_value is_restartable_candidate required_label_value get string_discrete is_blank
    parse_runtime_kind
a_is_offered = refl

a_has_no_args : server_args json a.metadata ≡ ok []
unfolding server_args required_label_value get string_discrete
a_has_no_args = refl

abbrev selected_a : StableIdTargetSelection
selected_a = record { id = "0a0000000000"; sessions = a ∷ [] }

a_root : single_recoverable_git_root selected_a restart ≡ ok "/w"
unfolding single_recoverable_git_root required_label_value get string_discrete is_blank
a_root = refl

abbrev stop_a : StopStableIdTarget
stop_a = record { id = "0a0000000000"; sessions = a ∷ []; has_duplicates = false }

a_is_planned : plan_by_id sessions "0a" ≡ ok (by_id stop_a)
unfolding into_all_rooted_sessions select_stable_id_prefix_with_noun collect_matches
    required_label_value get string_discrete is_blank
a_is_planned = refl

plan_by_id_lem_example :
    All (HasId "0a" "0a0000000000") sessions
    × (stop_a.sessions ≡ filter (matches_prefix "0a") sessions)
    × All IsRooted stop_a.sessions
    × (stop_a.sessions ≢ [])
    × (false ≡ ltb 1 (length stop_a.sessions))
plan_by_id_lem_example = plan_by_id_lem sessions "0a" stop_a a_is_planned

abbrev pub system : System
system = record { sha256 = digest; host = host; exists = λ path. false }

abbrev pub restart_plan : RestartSessionTargetPlan
restart_plan = record { input = by_stable_id "0a"; lock_git_root = "/w" }

abbrev missing_container : String → Result Error PodmanContainerInspect
missing_container name = err (no_session_matches_restart_target name)

a_is_selected :
    select_session_candidate system restart_plan "/w"
      (locked_sessions digest probe missing_container [] (ok sessions) "/w" a)
      (ok sessions)
    ≡ ok a
unfolding select_session_candidate resolve select_stable_id_prefix_with_noun collect_matches
    required_label_value get string_discrete is_blank path_eq path_compare components is_absolute
a_is_selected = refl

select_session_candidate_lem_example :
    (resolved : ResolvedSessionTarget) × (resolve system restart_plan.input ≡ ok resolved)
    × Matches digest probe missing_container [] (ok sessions) "/w" a resolved
select_session_candidate_lem_example =
    select_session_candidate_lem digest probe missing_container [] (ok sessions) "/w" a system
      restart_plan a_is_selected

abbrev health_plan : HealthSessionTargetPlan
health_plan = Health.workspace "/w"

a_is_probed : select_sessions health_plan sessions ≡ ok (a ∷ [])
unfolding select_sessions exact_git_root_matches required_label_value get string_discrete is_blank
    path_eq path_compare components is_absolute
a_is_probed = refl

abbrev conflict : ManagedContainerConflict
conflict = record {
  workspace = workspace;
  container_name = "agentbox-a";
  container_kind = managed;
  identity = record { canonical_git_root = "/v"; git_root_hash = workspace.hash12 };
  same_root_failure = none;
  inspect = managed_inspect;
}
