-- ===== src/Stop/Cleanup.antt =====
-- src/commands/container_cleanup.rs: a container is stopped, and then Podman is asked whether it is
-- gone. The state is the host's; Podman and the removal of the attach token are parameters.
use agentbox_nix.Shared.{
  String, ◌≡◌, refl, ◌↔◌, Bool, true, false, Option, none, some, List, [], ◌∷◌, push_some, error_of,
  Result, ok, err, arith,
}
use agentbox_nix.Session.Record.{SessionRecord}

pub data ContainerCleanupVerification : Type 0 where
  removed still_exists : ContainerCleanupVerification
  verification_failed : (error : String) → ContainerCleanupVerification

pub data ContainerCleanupIssue : Type 0 where
  stop_failed : (error : String) → ContainerCleanupIssue
  container_still_exists : ContainerCleanupIssue
  inspect_failed : (error : String) → ContainerCleanupIssue

pub record ManagedContainerCleanup : Type 0 where
  pub stop_error : Option String
  pub verification : ContainerCleanupVerification

pub record ContainerCleanupFailure : Type 0 where
  pub container_name : String
  pub issues : List ContainerCleanupIssue

abbrev pub verification_of : Result String Bool → ContainerCleanupVerification
verification_of (ok false) = removed
verification_of (ok true) = still_exists
verification_of (err error) = verification_failed error

abbrev pub container_removed : ManagedContainerCleanup → Bool
container_removed cleanup = elim cleanup.verification [
  | removed ↦ true
  | still_exists ↦ false
  | verification_failed _ ↦ false
]

abbrev issue_of : ContainerCleanupVerification → Option ContainerCleanupIssue
issue_of removed = none
issue_of still_exists = some container_still_exists
issue_of (verification_failed error) = some (inspect_failed error)

abbrev pub remaining_container_issue : ManagedContainerCleanup → Option ContainerCleanupIssue
remaining_container_issue cleanup = issue_of cleanup.verification

abbrev stop_issue_of : Option String → Option ContainerCleanupIssue
stop_issue_of none = none
stop_issue_of (some error) = some (stop_failed error)

abbrev pub stop_issue : ManagedContainerCleanup → Option ContainerCleanupIssue
stop_issue cleanup = stop_issue_of cleanup.stop_error

-- The issues that an interrupted start reports.
abbrev pub interrupted_issues : ManagedContainerCleanup → List ContainerCleanupIssue
interrupted_issues cleanup =
    push_some (stop_issue cleanup) (push_some (remaining_container_issue cleanup) [])

abbrev failure_with :
    String
    → Option ContainerCleanupIssue
    → Option ContainerCleanupIssue
    → Option ContainerCleanupFailure
failure_with name stopping none = none
failure_with name stopping (some remaining) =
    some (record { container_name = name; issues = push_some stopping (remaining ∷ []) })

unfoldable pub remaining_failure : ManagedContainerCleanup → String → Option ContainerCleanupFailure
remaining_failure cleanup name =
    failure_with name (stop_issue cleanup) (remaining_container_issue cleanup)

module _ (State : Type 0) where
  pub record Host : Type 0 where
    pub stop_ignore : String → State → Result String (Unit {0}) × State
    pub container_exists : String → State → Result String Bool × State
    pub remove_attach_token : SessionRecord → State → State

  -- `ManagedContainerCleanup::stop_and_verify`: the question is asked even when the stop failed.
  unfoldable pub stop_and_verify : Host → String → State → ManagedContainerCleanup × State
  stop_and_verify host name state =
      let (stopped, after) = host.stop_ignore name state in
      let (exists, last) = host.container_exists name after in
      (record { stop_error = error_of stopped; verification = verification_of exists }, last)

  abbrev forget_token : Host → SessionRecord → Option ContainerCleanupFailure → State → State
  forget_token host session none state = host.remove_attach_token session state
  forget_token host session (some _) state = state

  unfoldable pub cleanup_managed_container :
      Host → SessionRecord → State → Option ContainerCleanupFailure × State
  unfolding stop_and_verify remaining_failure
  cleanup_managed_container host session state =
      let (cleanup, next) = stop_and_verify host session.container_name state in
      let failure = remaining_failure cleanup session.container_name in
      (failure, forget_token host session failure next)

  unfoldable pub cleanup_managed_containers :
      Host → List SessionRecord → State → List ContainerCleanupFailure × State
  cleanup_managed_containers host [] state = ([], state)
  cleanup_managed_containers host (session ∷ sessions) state =
      let (failure, next) = cleanup_managed_container host session state in
      let (failures, last) = cleanup_managed_containers host sessions next in
      (push_some failure failures, last)

  -- The containers' own states: after each stop, Podman said that the container is gone.
  abbrev pub VerifiedGone : Host → SessionRecord → State → Type 0
  VerifiedGone host session state =
      (host.container_exists session.container_name
        (host.stop_ignore session.container_name state).1).0
      ≡ ok false

  abbrev pub AllGone : Host → List SessionRecord → State → Type 0
  AllGone host [] state = Unit
  AllGone host (session ∷ sessions) state =
      VerifiedGone host session state
      × AllGone host sessions (cleanup_managed_container host session state).1

  gone_iff :
      (stopping : Option ContainerCleanupIssue) (name : String) (exists : Result String Bool)
      → (failure_with name stopping (issue_of (verification_of exists)) ≡ none)
        ↔ (exists ≡ ok false)
  gone_iff stopping name (ok false) = (λ _. refl, λ _. refl)
  gone_iff stopping name (ok true) = (λ h. cc, λ h. absurd (ground arith))
  gone_iff stopping name (err e) = (λ h. cc, λ h. cc)

  one_gone_iff :
      (host : Host) (session : SessionRecord) (state : State)
      → ((cleanup_managed_container host session state).0 ≡ none) ↔ VerifiedGone host session state
  unfolding cleanup_managed_container stop_and_verify remaining_failure
  one_gone_iff host session state =
      gone_iff (stop_issue_of (error_of (host.stop_ignore session.container_name state).0))
        session.container_name
        (host.container_exists session.container_name
          (host.stop_ignore session.container_name state).1).0

  push_none :
      (o : Option ContainerCleanupFailure) (fs : List ContainerCleanupFailure)
      → (push_some o fs ≡ []) ↔ ((o ≡ none) × (fs ≡ []))
  push_none none fs = (λ h. (refl, h), λ (_, h). h)
  push_none (some f) fs = (λ h. cc, λ (h, _). cc)

  -- A cleanup reports no failure exactly when Podman confirms of each container, right after its
  -- stop, that it is gone, whatever the stop itself returned.
  pub cleanup_managed_containers_iff :
      (host : Host) (sessions : List SessionRecord) (state : State)
      → ((cleanup_managed_containers host sessions state).0 ≡ []) ↔ AllGone host sessions state
  unfolding cleanup_managed_containers
  cleanup_managed_containers_iff host [] state = (λ _. tt, λ _. refl)
  cleanup_managed_containers_iff host (session ∷ sessions) state =
      let next = (cleanup_managed_container host session state).1 in
      let (gone, back) = one_gone_iff host session state in
      let (rest_gone, rest_back) = cleanup_managed_containers_iff host sessions next in
      let (split, join) =
        push_none (cleanup_managed_container host session state).0
          (cleanup_managed_containers host sessions next).0 in
      (
        λ h. let (first, rest) = split h in (gone first, rest_gone rest),
        λ (first, rest). join (back first, rest_back rest),
      )
