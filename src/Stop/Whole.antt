-- ===== src/Stop/Whole.antt =====
-- A stop by id leaves out no planned session, and cleans nothing without `--force` where it matters.
use agentbox_nix.Shared.{◌↔◌}
use agentbox_nix.Stop.Command.{stop_target, stop_each, stop_targets, note_failure, targets_outcome}
use agentbox_nix.Shared.{
  String, ◌≡◌, refl, ◌∙◌, Bool, true, false, List, [], ◌∷◌, All, filter, Result, ok, err,
}
use agentbox_nix.Errors.{Error, duplicates_need_force}
use agentbox_nix.Session.Record.{SessionRecord}
use agentbox_nix.Session.Collection.{partition_sessions_by_git_root}
use agentbox_nix.Session.Collection.Laws.{has_no_root, partition_sessions_lem}
use agentbox_nix.Session.Target.Input.{SessionTargetInput, display}
use agentbox_nix.Session.Target.Selected.Laws.{IsRooted}
use agentbox_nix.Session.Target.Stop.{StopStableIdTarget, by_id, plan_by_id}
use agentbox_nix.Session.Target.Stop.Laws.{plan_by_id_lem}
use agentbox_nix.Stop.Command.{Services, stop_stable_id}

no_unrooted :
    (sessions : List SessionRecord) → All IsRooted sessions → filter has_no_root sessions ≡ []
no_unrooted [] h = refl
no_unrooted (s ∷ sessions) (h, hs) = rw h (no_unrooted sessions hs)

-- The groups that a planned stop by id cleans hold all its sessions: the partition has no session
-- without a git root, which the cleanup would pass over.
pub planned_sessions_rooted :
    (sessions : List SessionRecord) (prefix : String) (plan : StopStableIdTarget)
    → plan_by_id sessions prefix ≡ ok (by_id plan)
    → (partition_sessions_by_git_root plan.sessions).unrooted ≡ []
planned_sessions_rooted sessions prefix plan h =
    let (_, _, rooted, _, _) = plan_by_id_lem sessions prefix plan h in
    let (_, _, unrooted) = partition_sessions_lem plan.sessions in
    unrooted ∙ no_unrooted plan.sessions rooted

-- Without `--force`, a stop of a plan with duplicates fails and leaves the host as it is.
pub stop_stable_id_guard :
    (State : Type 0) (services : Services State) (plan : StopStableIdTarget)
    (target : SessionTargetInput) (state : State)
    → plan.has_duplicates ≡ true
    → stop_stable_id State services plan false target state
      ≡ (err (duplicates_need_force (display target)), state)
unfolding stop_stable_id
stop_stable_id_guard State services plan target state h = rw h refl

module _ (State : Type 0) (services : Services State) (force : Bool) where
  -- Each target is stopped in the state that the earlier stops leave.
  abbrev pub AllStopped : List SessionTargetInput → State → Type 0
  AllStopped [] state = Unit
  AllStopped (target ∷ targets) state =
      ((stop_target State services target force state).0 ≡ ok tt)
      × AllStopped targets (stop_target State services target force state).1

  none_failed :
      (targets : List SessionTargetInput) (state : State)
      → ((stop_each State services targets force state).0 ≡ []) ↔ AllStopped targets state
  unfolding stop_each
  none_failed [] state = (λ _. tt, λ _. refl)
  none_failed (target ∷ targets) state =
      by_result (stop_target State services target force state).0
        (none_failed targets (stop_target State services target force state).1)
    where
      next : State
      next = (stop_target State services target force state).1

      by_result :
          (r : Result Error (Unit {0}))
          → ((stop_each State services targets force next).0 ≡ []) ↔ AllStopped targets next
          → (note_failure State target r (stop_each State services targets force next).0 ≡ [])
            ↔ ((r ≡ ok tt) × AllStopped targets next)
      by_result (ok u) (there, back) = (λ h. (refl, there h), λ (_, a). back a)
      by_result (err e) (there, back) = (λ h. cc, λ (h, _). cc)

  outcome_iff :
      (failures : List (SessionTargetInput × Error))
      → (targets_outcome State services failures ≡ ok tt) ↔ (failures ≡ [])
  outcome_iff [] = (λ _. refl, λ _. refl)
  outcome_iff (f ∷ fs) = (λ h. cc, λ h. cc)

  -- A stop of targets succeeds exactly when the stop of each one does, in the state that the earlier
  -- ones leave.
  pub stop_targets_iff :
      (targets : List SessionTargetInput) (state : State)
      → ((stop_targets State services targets force state).0 ≡ ok tt) ↔ AllStopped targets state
  unfolding stop_targets
  stop_targets_iff [] state = (λ _. tt, λ _. refl)
  stop_targets_iff (target ∷ []) state = (λ h. (h, tt), λ (h, _). h)
  stop_targets_iff (a ∷ b ∷ targets) state =
      let (there, back) = none_failed (a ∷ b ∷ targets) state in
      let (split, join) = outcome_iff (stop_each State services (a ∷ b ∷ targets) force state).0 in
      (λ h. there (split h), λ h. join (back h))
