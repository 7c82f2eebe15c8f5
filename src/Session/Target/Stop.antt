-- ===== src/Session/Target/Stop.antt =====
-- src/session/target/stop.rs: which containers a stop removes, and when it needs `--force`.
pub mod Laws
use agentbox_nix.Shared.{
  String, Bool, true, false, not, ◌&&◌, List, [], ℕ, ltb, is_empty, Result, ok, err, ◌>>=◌,
  if◌then◌else◌,
}
use agentbox_nix.Errors.{Error, stop, no_agentbox_container, duplicates_need_force}
use agentbox_nix.Paths.{FilePath}
use agentbox_nix.Session.Record.{SessionRecord}
use agentbox_nix.Session.Collection.{exact_git_root_matches}
use agentbox_nix.Session.Target.Input.{
  System, SessionTargetInput, ResolvedSessionTarget, resolved_git_root, exact_stored_git_root_path,
  stable_id_prefix, display, resolve,
}
use agentbox_nix.Session.Target.Selected.{
  StableIdTargetSelection, has_duplicate_sessions, into_all_rooted_sessions,
  select_agentbox_stable_id_target,
}

pub data StopExactGitRootTargetMode : Type 0 where
  scoped exact_stored_path : StopExactGitRootTargetMode

pub record StopExactGitRootTarget : Type 0 where
  pub git_root : FilePath
  pub mode : StopExactGitRootTargetMode

pub record StopStableIdTarget : Type 0 where
  pub id : String
  pub sessions : List SessionRecord
  pub has_duplicates : Bool

pub data StopSessionTargetPlan : Type 0 where
  exact_git_root : StopExactGitRootTarget → StopSessionTargetPlan
  by_id : StopStableIdTarget → StopSessionTargetPlan

abbrev pub plan_by_id : List SessionRecord → String → Result Error StopSessionTargetPlan
plan_by_id sessions prefix = do
  selection ← select_agentbox_stable_id_target sessions prefix
  rooted ← into_all_rooted_sessions selection stop
  ok (
      by_id (record {
        id = selection.id;
        sessions = rooted;
        has_duplicates = has_duplicate_sessions selection;
      }))

abbrev plan_resolved :
    Result Error (List SessionRecord) → ResolvedSessionTarget → Result Error StopSessionTargetPlan
plan_resolved discovered (resolved_git_root root) =
    ok (exact_git_root (record { git_root = root; mode = scoped }))
plan_resolved discovered (exact_stored_git_root_path root) =
    ok (exact_git_root (record { git_root = root; mode = exact_stored_path }))
plan_resolved discovered (stable_id_prefix prefix) = do
  sessions ← discovered
  plan_by_id sessions prefix

-- `StopSessionTargetPlan::resolve`; the sessions are what discovery returns when it is called.
unfoldable pub resolve_stop_plan :
    System
    → SessionTargetInput
    → Result Error (List SessionRecord)
    → Result Error StopSessionTargetPlan
resolve_stop_plan system target discovered = do
  resolved ← resolve system target
  plan_resolved discovered resolved

abbrev pub uses_locked_root_scope : StopExactGitRootTarget → Bool
uses_locked_root_scope target = elim target.mode [ scoped ↦ true | exact_stored_path ↦ false ]

abbrev pub exact_matches_from : StopExactGitRootTarget → List SessionRecord → List SessionRecord
exact_matches_from target sessions = exact_git_root_matches sessions target.git_root

abbrev pub require_non_empty_matches :
    StopExactGitRootTarget → List SessionRecord → Result Error (Unit {0})
require_non_empty_matches target sessions =
    if is_empty sessions then err (no_agentbox_container target.git_root) else ok tt

abbrev pub require_force_for_duplicate_matches :
    Bool → Bool → SessionTargetInput → Result Error (Unit {0})
require_force_for_duplicate_matches duplicates force target =
    if duplicates && not force then err (duplicates_need_force (display target)) else ok tt

abbrev pub require_force_for_matches : ℕ → Bool → SessionTargetInput → Result Error (Unit {0})
require_force_for_matches count force target =
    require_force_for_duplicate_matches (ltb 1 count) force target

abbrev pub require_force : StopStableIdTarget → Bool → SessionTargetInput → Result Error (Unit {0})
require_force plan force target =
    require_force_for_duplicate_matches plan.has_duplicates force target
