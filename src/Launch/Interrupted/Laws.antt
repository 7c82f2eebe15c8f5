-- ===== src/Launch/Interrupted/Laws.antt =====
-- An interrupted start keeps the cache volume where it must, and its report is true.
use agentbox_nix.Shared.{
  ◌≡◌, ◌≢◌, refl, sym, ◌∙◌, String, Bool, true, false, List, [], ◌∷◌, ◌++◌, All, map, Result, ok,
  err, error_of, ◌⊎◌, inl, inr,
}
use agentbox_nix.Workspace.{WorkspaceIdentity}
use agentbox_nix.Stop.Cleanup.{
  ManagedContainerCleanup, stop_failed, container_still_exists, inspect_failed, stop_and_verify,
  verification_of, interrupted_issues,
}
use agentbox_nix.Launch.Interrupted.{
  InterruptedFailure, container_issue, volume_not_removed, skipped_as_container_exists,
  skipped_as_not_verified, InterruptedRunCleanup, InterruptedReport, preserved_existing_volume,
  removed_new_volume, no_new_volume_remained, partial_cleanup_failed, render, InterruptHost,
  volume_outcome, after_container, run_cleanup, interrupted_error,
}

true-ne-false : true ≢ false
true-ne-false h = cc

module _ {State : Type 0} (host : InterruptHost State) (workspace : WorkspaceIdentity)
    (container_there volume_there : State → Bool) where
  abbrev pub name : String
  name = workspace.container_name

  -- What the cleanup relies on, of the container and the volume of the workspace: Podman answers truly
  -- and changes nothing but what it is asked to.
  pub record IsHonest : Type 0 where
    pub stop_keeps : (s : State) → volume_there (host.podman.stop_ignore name s).1 ≡ volume_there s
    pub exists_tells :
        (s : State) (b : Bool)
        → (host.podman.container_exists name s).0 ≡ ok b
        → b ≡ container_there s
    pub exists_keeps_container :
        (s : State) → container_there (host.podman.container_exists name s).1 ≡ container_there s
    pub exists_keeps_volume :
        (s : State) → volume_there (host.podman.container_exists name s).1 ≡ volume_there s
    pub removal_keeps :
        (s : State) → container_there (host.remove_volume name s).1 ≡ container_there s
    pub removal_removes :
        (s : State) (u : Unit {0})
        → (host.remove_volume name s).0 ≡ ok u
        → volume_there (host.remove_volume name s).1 ≡ false

  -- What a failure claims of the state that an interrupted start leaves.
  abbrev pub Tells : State → InterruptedFailure → Type 0
  Tells after (container_issue container_still_exists) = container_there after ≡ true
  Tells after (container_issue (stop_failed e)) = Unit
  Tells after (container_issue (inspect_failed e)) = Unit
  Tells after (volume_not_removed e) = container_there after ≡ false
  Tells after skipped_as_container_exists = container_there after ≡ true
  Tells after skipped_as_not_verified = Unit

  -- What a report claims of that state.
  abbrev pub Says : InterruptedReport → (before after : State) → Type 0
  Says preserved_existing_volume before after =
      (container_there after ≡ false) × (volume_there after ≡ volume_there before)
  Says removed_new_volume before after =
      (container_there after ≡ false) × (volume_there after ≡ false)
  Says no_new_volume_remained before after = ⊥
  Says (partial_cleanup_failed failures) before after = (failures ≢ []) × All (Tells after) failures

  abbrev pub listed : InterruptedReport → List InterruptedFailure
  listed preserved_existing_volume = []
  listed removed_new_volume = []
  listed no_new_volume_remained = []
  listed (partial_cleanup_failed failures) = failures

  -- What goes wrong, by Podman's answers to the stop, to the question after it, and to the removal of the
  -- volume.
  abbrev pub stop_failures : Result String (Unit {0}) → List InterruptedFailure
  stop_failures (ok _) = []
  stop_failures (err e) = container_issue (stop_failed e) ∷ []

  abbrev pub later_failures :
      Bool → Result String Bool → Result String (Unit {0}) → List InterruptedFailure
  later_failures true (ok false) volume = []
  later_failures true (ok true) volume = container_issue container_still_exists ∷ []
  later_failures true (err e) volume = container_issue (inspect_failed e) ∷ []
  later_failures false (ok false) (ok _) = []
  later_failures false (ok false) (err e) = volume_not_removed e ∷ []
  later_failures false (ok true) volume =
      container_issue container_still_exists ∷ skipped_as_container_exists ∷ []
  later_failures false (err e) volume =
      container_issue (inspect_failed e) ∷ skipped_as_not_verified ∷ []

  abbrev verified : Result String (Unit {0}) → Result String Bool → ManagedContainerCleanup
  verified stopped exists = record {
    stop_error = error_of stopped;
    verification = verification_of exists;
  }

  -- A report that is true, and lists what went wrong.
  abbrev pub IsReport :
      InterruptedReport → List InterruptedFailure → (before after : State) → Type 0
  IsReport report failures before after = Says report before after × (listed report ≡ failures)

  module _ (honest : IsHonest) where
    new_volume :
        (stopped : Result String (Unit {0})) (volume : Result String (Unit {0}))
        (before after : State)
        → container_there after ≡ false
        → ((u : Unit {0}) → volume ≡ ok u → volume_there after ≡ false)
        → IsReport
            (render
              (volume_outcome State
                (map container_issue (interrupted_issues (verified stopped (ok false))))
                volume)
              false)
            (stop_failures stopped ++ later_failures false (ok false) volume)
            before
            after
    new_volume (ok _) (ok u) before after gone emptied = ((gone, emptied u refl), refl)
    new_volume (ok _) (err error) before after gone emptied = ((λ e. cc, (gone, tt)), refl)
    new_volume (err e) (ok u) before after gone emptied = ((λ e. cc, (tt, tt)), refl)
    new_volume (err e) (err error) before after gone emptied = ((λ e. cc, (tt, (gone, tt))), refl)

    -- The outcome, by what the stop and the question came to.
    abbrev Reported :
        InterruptedRunCleanup × State → Bool → List InterruptedFailure → State → Type 0
    Reported outcome existed failures before =
        IsReport (render outcome.0 existed) failures before outcome.1

    reported :
        (stopped : Result String (Unit {0})) (exists : Result String Bool) (existed : Bool)
        (before s : State)
        → ((b : Bool) → exists ≡ ok b → container_there s ≡ b)
        → volume_there s ≡ volume_there before
        → Reported
            (after_container State host name existed (verified stopped exists) s)
            existed
            (stop_failures stopped ++ later_failures existed exists (host.remove_volume name s).0)
            before
    reported (ok _) (ok false) true before s there kept = ((there false refl, kept), refl)
    reported (err e) (ok false) true before s there kept = ((λ e. cc, (tt, tt)), refl)
    reported stopped (ok false) false before s there kept =
        new_volume stopped (host.remove_volume name s).0 before (host.remove_volume name s).1
          (honest.removal_keeps s ∙ there false refl) (honest.removal_removes s)
    reported (ok _) (ok true) true before s there kept = ((λ e. cc, (there true refl, tt)), refl)
    reported (ok _) (ok true) false before s there kept =
        ((λ e. cc, (there true refl, (there true refl, tt))), refl)
    reported (err e) (ok true) true before s there kept =
        ((λ e. cc, (tt, (there true refl, tt))), refl)
    reported (err e) (ok true) false before s there kept =
        ((λ e. cc, (tt, (there true refl, (there true refl, tt)))), refl)
    reported (ok _) (err f) true before s there kept = ((λ e. cc, (tt, tt)), refl)
    reported (ok _) (err f) false before s there kept = ((λ e. cc, (tt, (tt, tt))), refl)
    reported (err e) (err f) true before s there kept = ((λ e. cc, (tt, (tt, tt))), refl)
    reported (err e) (err f) false before s there kept = ((λ e. cc, (tt, (tt, (tt, tt)))), refl)

    -- The volume survives where it is to be kept.
    kept_volume :
        (stopped : Result String (Unit {0})) (exists : Result String Bool) (existed : Bool)
        (s : State)
        → (exists ≡ ok false → container_there s ≡ false)
        → ((existed ≡ true)
            ⊎ (container_there
                  (after_container State host name existed (verified stopped exists) s).1
                ≡ true))
        → volume_there (after_container State host name existed (verified stopped exists) s).1
          ≡ volume_there s
    kept_volume stopped (ok false) true s gone why = refl
    kept_volume stopped (ok false) false s gone (inl p) = cc
    kept_volume stopped (ok false) false s gone (inr there) =
        let absent : container_there (host.remove_volume name s).1 ≡ false =
          honest.removal_keeps s ∙ gone refl in
        absurd (true-ne-false (sym there ∙ absent))
    kept_volume stopped (ok true) true s gone why = refl
    kept_volume stopped (ok true) false s gone why = refl
    kept_volume stopped (err f) true s gone why = refl
    kept_volume stopped (err f) false s gone why = refl

    abbrev pub stopped_state : State → State
    stopped_state s = (host.podman.stop_ignore name s).1

    abbrev pub asked_state : State → State
    asked_state s = (host.podman.container_exists name (stopped_state s)).1

    asked-there :
        (s : State) (b : Bool)
        → (host.podman.container_exists name (stopped_state s)).0 ≡ ok b
        → container_there (asked_state s) ≡ b
    asked-there s b h =
        honest.exists_keeps_container (stopped_state s)
        ∙ sym (honest.exists_tells (stopped_state s) b h)

    asked-kept : (s : State) → volume_there (asked_state s) ≡ volume_there s
    asked-kept s = honest.exists_keeps_volume (stopped_state s) ∙ honest.stop_keeps s

    -- What an interrupted start reports is true. Without failures the container is gone, and the cache
    -- volume is as before if it existed before the start, and gone otherwise; that no new volume
    -- remained is never reported. A report of failures has one at least, and lists exactly those that
    -- Podman's answers stand for: an error of the stop; a container that is still there, or an error of
    -- the question; and for a new volume an error of its removal, or why it was not removed. A
    -- container that is listed as still there is there.
    pub interrupted_error-Says :
        (existed_before : Bool) (s : State)
        → IsReport
            (interrupted_error State host workspace existed_before s).0
            (stop_failures (host.podman.stop_ignore name s).0
              ++ later_failures existed_before
                  (host.podman.container_exists name (stopped_state s)).0
                  (host.remove_volume name (asked_state s)).0)
            s
            (interrupted_error State host workspace existed_before s).1
    unfolding interrupted_error run_cleanup stop_and_verify
    interrupted_error-Says existed_before s =
        reported (host.podman.stop_ignore name s).0
          (host.podman.container_exists name (stopped_state s)).0 existed_before s (asked_state s)
          (asked-there s) (asked-kept s)

    -- An interrupted start leaves the cache volume as it was, if the volume existed before the start or
    -- if the container is still there at the end.
    pub interrupted_error-keeps_volume :
        (existed_before : Bool) (s : State)
        → ((existed_before ≡ true)
            ⊎ (container_there (interrupted_error State host workspace existed_before s).1 ≡ true))
        → volume_there (interrupted_error State host workspace existed_before s).1 ≡ volume_there s
    unfolding interrupted_error run_cleanup stop_and_verify
    interrupted_error-keeps_volume existed_before s why =
        kept_volume (host.podman.stop_ignore name s).0
          (host.podman.container_exists name (stopped_state s)).0 existed_before (asked_state s)
          (asked-there s false) why
        ∙ asked-kept s
