-- ===== src/Clean/Apply.antt =====
-- src/commands/clean/apply.rs and `run` of mod.rs: the removal of the candidates. The state is the
-- host's, which the removals change; Podman and the lock files are parameters.
use agentbox_nix.Shared.{
  String, ◌≡◌, ◌≢◌, refl, ap, ◌↔◌, List, [], ◌∷◌, ◌++◌, Result, ok, err, arith,
}
use agentbox_nix.Errors.{Error, RuntimeKind}
use agentbox_nix.Clean.Scope.{CleanResource}
use agentbox_nix.Clean.Plan.{
  CleanPlan, CleanCandidate, default_runtime_image, cache_volume, workspace_lock_file, resource_of,
}

pub data WorkspaceLockFileRemoval : Type 0 where
  removed missing still_locked : WorkspaceLockFileRemoval

module _ (State : Type 0) where
  abbrev pub Action : Type 0
  Action = State → Result Error (Unit {0}) × State

  -- Podman, the state of the default images, and the lock files.
  pub record Host : Type 0 where
    pub remove_image : String → Action
    pub remove_default_runtime_image_state_if_image : RuntimeKind → String → Action
    pub remove_volume : String → Action
    pub remove_cleanup_lock_file : String → State → Result Error WorkspaceLockFileRemoval × State
    pub locked_error : Error

  abbrev and_then : Result Error (Unit {0}) → Action → Action
  and_then (ok _) next state = next state
  and_then (err e) next state = (err e, state)

  abbrev lock_outcome : Host → Result Error WorkspaceLockFileRemoval → Result Error (Unit {0})
  lock_outcome host (err e) = err e
  lock_outcome host (ok removed) = ok tt
  lock_outcome host (ok missing) = ok tt
  lock_outcome host (ok still_locked) = err host.locked_error

  -- `PodmanCleanRemoval::remove_candidate`
  unfoldable pub remove_candidate : Host → CleanCandidate → Action
  remove_candidate host (default_runtime_image runtime resource) state =
      let (result, next) = host.remove_image resource.name state in
      and_then result (host.remove_default_runtime_image_state_if_image runtime resource.name) next
  remove_candidate host (cache_volume resource) state = host.remove_volume resource.name state
  remove_candidate host (workspace_lock_file path resource) state =
      let (result, next) = host.remove_cleanup_lock_file path state in
      (lock_outcome host result, next)

  pub record DeleteFailure : Type 0 where
    pub resource : CleanResource
    pub error : Error

  pub record Applied : Type 0 where
    pub reported : List CleanResource
    pub failures : List DeleteFailure
    pub state : State

  abbrev pub record_removal : CleanResource → Result Error (Unit {0}) → Applied → State → Applied
  record_removal resource (ok _) done next = record {
    reported = done.reported ++ resource ∷ [];
    failures = done.failures;
    state = next;
  }
  record_removal resource (err e) done next = record {
    reported = done.reported;
    failures = done.failures ++ record { resource = resource; error = e } ∷ [];
    state = next;
  }

  -- The loop over the candidates.
  unfoldable pub apply_candidates :
      (CleanCandidate → Action) → List CleanCandidate → Applied → Applied
  apply_candidates remove [] done = done
  apply_candidates remove (candidate ∷ candidates) done = apply_candidates remove candidates (
      record_removal (resource_of candidate) (remove candidate done.state).0 done
        (remove candidate done.state).1)

  abbrev outcome : Error → List DeleteFailure → Result Error (Unit {0})
  outcome failed [] = ok tt
  outcome failed (_ ∷ _) = err failed

  -- `apply_clean_plan_with`; the message of the failures is a parameter.
  unfoldable pub apply_clean_plan_with :
      (List DeleteFailure → Error)
      → (CleanCandidate → Action)
      → CleanPlan
      → State
      → Result Error (Unit {0}) × Applied
  unfolding apply_candidates
  apply_clean_plan_with render remove plan state =
      let done =
        apply_candidates remove plan.candidates
          (record { reported = []; failures = []; state = state }) in
      (outcome (render done.failures) done.failures, done)

  -- The states and the results of attempting all candidates, one after the other.
  abbrev pub final_state : (CleanCandidate → Action) → List CleanCandidate → State → State
  final_state remove [] state = state
  final_state remove (candidate ∷ candidates) state =
      final_state remove candidates (remove candidate state).1

  -- Every candidate is removed in the state that the earlier removals leave.
  abbrev pub AllRemoved : (CleanCandidate → Action) → List CleanCandidate → State → Type 0
  AllRemoved remove [] state = Unit
  AllRemoved remove (candidate ∷ candidates) state =
      ((remove candidate state).0 ≡ ok tt) × AllRemoved remove candidates (remove candidate state).1

  -- No turn takes a failure back.
  failed_stays :
      (remove : CleanCandidate → Action) (candidates : List CleanCandidate) (done : Applied)
      → done.failures ≢ []
      → (apply_candidates remove candidates done).failures ≢ []
  unfolding apply_candidates
  failed_stays remove [] done h = h
  failed_stays remove (candidate ∷ candidates) done h =
      failed_stays remove candidates _
        (kept (remove candidate done.state).0 (remove candidate done.state).1)
    where
      grown : (fs : List DeleteFailure) (x : DeleteFailure) → fs ++ x ∷ [] ≢ []
      grown [] x z = cc
      grown (f ∷ fs) x z = cc

      kept :
          (r : Result Error (Unit {0})) (next : State)
          → (record_removal (resource_of candidate) r done next).failures ≢ []
      kept (ok _) next = h
      kept (err e) next = grown done.failures _

  state_lem :
      (remove : CleanCandidate → Action) (candidates : List CleanCandidate) (done : Applied)
      → (apply_candidates remove candidates done).state ≡ final_state remove candidates done.state
  unfolding apply_candidates
  state_lem remove [] done = refl
  state_lem remove (candidate ∷ candidates) done =
      by_result (remove candidate done.state).0 (remove candidate done.state).1
        (λ after. state_lem remove candidates after)
    where
      by_result :
          (r : Result Error (Unit {0})) (next : State)
          → ((after : Applied)
              → (apply_candidates remove candidates after).state
                ≡ final_state remove candidates after.state)
          → (apply_candidates remove candidates
              (record_removal (resource_of candidate) r done next)).state
            ≡ final_state remove candidates next
      by_result (ok _) next ih = ih _
      by_result (err e) next ih = ih _

  removed_iff :
      (remove : CleanCandidate → Action) (candidates : List CleanCandidate) (done : Applied)
      → done.failures ≡ []
      → ((apply_candidates remove candidates done).failures ≡ [])
        ↔ AllRemoved remove candidates done.state
  unfolding apply_candidates
  removed_iff remove [] done h = (λ _. tt, λ _. h)
  removed_iff remove (candidate ∷ candidates) done h =
      by_result (remove candidate done.state).0 (remove candidate done.state).1
        (λ after e. removed_iff remove candidates after e)
        (λ after n. failed_stays remove candidates after n)
    where
      by_result :
          (r : Result Error (Unit {0})) (next : State)
          → ((after : Applied)
              → after.failures ≡ []
              → ((apply_candidates remove candidates after).failures ≡ [])
                ↔ AllRemoved remove candidates after.state)
          → ((after : Applied)
              → after.failures ≢ []
              → (apply_candidates remove candidates after).failures ≢ [])
          → ((apply_candidates remove candidates
                (record_removal (resource_of candidate) r done next)).failures
              ≡ [])
            ↔ ((r ≡ ok tt) × AllRemoved remove candidates next)
      by_result (ok u) next ih stays =
          let (there, back) = ih (record_removal (resource_of candidate) (ok u) done next) h in
          (λ e. (refl, there e), λ (_, a). back a)
      by_result (err e) next ih stays = (
        λ z. absurd (stays (record_removal (resource_of candidate) (err e) done next) grown z),
        λ (z, _). cc,
      )
        where
          grown : done.failures ++ record { resource = resource_of candidate; error = e } ∷ [] ≢ []
          grown z = ground arith

  -- Every candidate is attempted, whatever the earlier removals return, and the clean succeeds
  -- exactly when every removal does.
  pub apply_clean_plan_lem :
      (render : List DeleteFailure → Error) (remove : CleanCandidate → Action) (plan : CleanPlan)
      (state : State)
      → ((apply_clean_plan_with render remove plan state).1.state
          ≡ final_state remove plan.candidates state)
        × (((apply_clean_plan_with render remove plan state).0 ≡ ok tt)
            ↔ AllRemoved remove plan.candidates state)
  unfolding apply_clean_plan_with
  apply_clean_plan_lem render remove plan state =
      let start : Applied = record { reported = []; failures = []; state = state } in
      let (there, back) = removed_iff remove plan.candidates start refl in
      (
        state_lem remove plan.candidates start,
        (
          λ h. there (succeeded (apply_candidates remove plan.candidates start).failures h),
          λ a. ap (λ fs. outcome (render fs) fs) (back a),
        ),
      )
    where
      succeeded : (fs : List DeleteFailure) → outcome (render fs) fs ≡ ok tt → fs ≡ []
      succeeded [] h = refl
      succeeded (f ∷ fs) h = cc
