-- ===== src/Restart/Replace/Laws.antt =====
-- A restart launches its replacement only where the old container is gone.
use agentbox_nix.Shared.{
  ◌≡◌, refl, sym, ◌∙◌, ap, subst, String, Bool, true, false, Option, Result, ok, err, error_of,
  ◌==◌, string_eq, ==_sound, arith, Bool-cases, inl, inr,
}
use agentbox_nix.Shared.Effects.{Yields, bind-Yields}
use agentbox_nix.Errors.{Error}
use agentbox_nix.Paths.{FilePath}
use agentbox_nix.Config.{ResourceLimits, ResourceLimitOverrides}
use agentbox_nix.Workspace.{WorkspaceIdentity}
use agentbox_nix.Launch.Spec.{RuntimeRunSpec}
use agentbox_nix.Stop.Cleanup.{stop_and_verify, remaining_failure, verification_of}
use agentbox_nix.Session.Record.{SessionRecord}
use agentbox_nix.Session.Restartable.{RestartableSession, prepare_restart_session}
use agentbox_nix.Session.Target.Input.{resolve_workspace_identity}
use agentbox_nix.Session.Target.Restart.{RestartSessionTargetPlan}
use agentbox_nix.Restart.Replace.{
  same_root, restart_launch_workspace, RestartHost, ask, stop_outcome, stop_existing_session,
  selected, limits, replace, restart_locked,
}

same_root_lem :
    (locked : FilePath) (session : SessionRecord) (directory : FilePath)
    (resolved : Result Error WorkspaceIdentity) (workspace : WorkspaceIdentity)
    → same_root locked session directory resolved ≡ ok workspace
    → (resolved ≡ ok workspace) × (workspace.canonical_git_root ≡ locked)
same_root_lem locked session directory (err error) workspace h = cc
same_root_lem locked session directory (ok found) workspace h =
    elim (Bool-cases (found.canonical_git_root == locked)) [
      | inl same ↦
          let here : found ≡ workspace = ground arith in
          (
            ap ok here,
            subst (λ w. w.canonical_git_root ≡ locked) here
                (==_sound found.canonical_git_root locked same),
          )
      | inr differ ↦ absurd (ground arith)
    ]

module _ {State : Type 0} where
  asked :
      {A : Type 0} (question : State → Result Error A) (s : State) (a : A) (t : State)
      → Yields (ask question) s a t
      → (question s ≡ ok a) × (s ≡ t)
  asked question s a t h = (ap (λ o. o.0) h, ap (λ o. o.1) h)

  module _ (host : RestartHost State) where
    -- Podman's answer after the stop of a container, and the state that it leaves.
    abbrev pub verification : String → State → Result String Bool × State
    verification container s =
        host.podman.container_exists container (host.podman.stop_ignore container s).1

    stopped_outcome :
        (container : String) (error : Option String) (answer : Result String Bool)
        → stop_outcome container (
            remaining_failure
              (record { stop_error = error; verification = verification_of answer })
              container)
          ≡ ok tt
        → answer ≡ ok false
    unfolding remaining_failure
    stopped_outcome container error (ok false) h = refl
    stopped_outcome container error (ok true) h = cc
    stopped_outcome container error (err e) h = cc

    stopped :
        (session : SessionRecord) (s : State) (t : State)
        → Yields (stop_existing_session host session) s tt t
        → ((verification session.container_name s).0 ≡ ok false)
          × ((verification session.container_name s).1 ≡ t)
    unfolding stop_existing_session stop_and_verify
    stopped session s t h = (
      stopped_outcome session.container_name
          (error_of (host.podman.stop_ignore session.container_name s).0)
          (verification session.container_name s).0 (ap (λ o. o.0) h),
      ap (λ o. o.1) h,
    )

    -- The launch of a replacement that was prepared in the first state, right after the old container was
    -- found gone.
    abbrev pub Replaces :
        RestartableSession → WorkspaceIdentity → ResourceLimits → State → State → Type 0
    Replaces restart workspace resource_limits s t =
        (spec : RuntimeRunSpec) × (before : State) × Yields
          (host.prepare_runtime_launch workspace restart.runtime restart.server_args
            resource_limits)
          s spec before
        × ((verification restart.session.container_name before).0 ≡ ok false)
        × Yields (host.launch workspace restart.runtime spec)
            (verification restart.session.container_name before).1 tt t

    replaced :
        (restart : RestartableSession) (workspace : WorkspaceIdentity)
        (resource_limits : ResourceLimits) (s t : State)
        → Yields (replace host restart workspace resource_limits) s tt t
        → Replaces restart workspace resource_limits s t
    replaced restart workspace resource_limits s t h =
        let (spec, before, p, h1) =
          bind-Yields
            (host.prepare_runtime_launch workspace restart.runtime restart.server_args
              resource_limits)
            _ s tt t h in
        let (_, after, q, launched) =
          bind-Yields (stop_existing_session host restart.session) _ before tt t h1 in
        let (gone, last) = stopped restart.session before after q in
        (
          spec,
          before,
          p,
          gone,
          subst (λ u. Yields (host.launch workspace restart.runtime spec) u tt t) (sym last)
              launched,
        )

    -- A restart that succeeds has prepared the session that its target selects under the lock; the
    -- session's stored launch directory resolves to a workspace of the locked git root; and the
    -- replacement was prepared for that workspace with the session's runtime, its stored server
    -- arguments and the limits that the restart determines, and launched there right after Podman said
    -- that the old container does not exist.
    pub restart_locked-Replaces :
        (plan : RestartSessionTargetPlan) (overrides : ResourceLimitOverrides) (locked : FilePath)
        (s t : State)
        → Yields (restart_locked host plan overrides locked) s tt t
        → (session : SessionRecord) × (restart : RestartableSession)
          × (workspace : WorkspaceIdentity) × (resource_limits : ResourceLimits) × (selected host
                plan locked s
              ≡ ok session)
          × (prepare_restart_session host.json session ≡ ok restart)
          × (resolve_workspace_identity host.system restart.launch_directory ≡ ok workspace)
          × (workspace.canonical_git_root ≡ locked)
          × (limits host restart.session overrides s ≡ ok resource_limits)
          × Replaces restart workspace resource_limits s t
    unfolding restart_locked restart_launch_workspace
    restart_locked-Replaces plan overrides locked s t h =
        let (session, s1, a, h1) = bind-Yields (ask (selected host plan locked)) _ s tt t h in
        let (restart, s2, b, h2) =
          bind-Yields (ask (λ _. prepare_restart_session host.json session)) _ s1 tt t h1 in
        let (workspace, s3, c, h3) =
          bind-Yields
            (ask (λ _.
              restart_launch_workspace host.system locked restart.session restart.launch_directory))
            _ s2 tt t h2 in
        let (resource_limits, s4, d, h4) =
          bind-Yields (ask (limits host restart.session overrides)) _ s3 tt t h3 in
        let (chosen, e1) = asked (selected host plan locked) s session s1 a in
        let (restartable, e2) =
          asked (λ _. prepare_restart_session host.json session) s1 restart s2 b in
        let (placed, e3) =
          asked
            (λ _.
              restart_launch_workspace host.system locked restart.session restart.launch_directory)
            s2 workspace s3 c in
        let (limited, e4) = asked (limits host restart.session overrides) s3 resource_limits s4 d in
        let at_start : s3 ≡ s = sym (e1 ∙ e2 ∙ e3) in
        let (resolves, same) =
          same_root_lem locked restart.session restart.launch_directory
            (resolve_workspace_identity host.system restart.launch_directory) workspace placed in
        (
          session,
          restart,
          workspace,
          resource_limits,
          chosen,
          restartable,
          resolves,
          same,
          subst (λ u. limits host restart.session overrides u ≡ ok resource_limits) at_start
              limited,
          subst (λ u. Replaces restart workspace resource_limits u t) (sym e4 ∙ at_start)
              (replaced restart workspace resource_limits s4 t h4),
        )
