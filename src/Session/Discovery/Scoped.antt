-- ===== src/Session/Discovery/Scoped.antt =====
-- Whose sessions a discovery for one git root returns.
use agentbox_nix.Shared.{
  ℕ, String, ◌≡◌, refl, sym, ap, subst, ◌∙◌, Bool, true, false, Option, none, some, List, [], ◌∷◌,
  All, All-append, map, Result, ok, ok_injective, ◌>>=◌, >>=-eq-ok, if◌then◌else◌, Bool-cases, ◌⊎◌,
  inl, inr, arith,
}
use agentbox_nix.Errors.{Error, AgentboxContainerKind}
use agentbox_nix.Paths.{FilePath}
use agentbox_nix.Podman.{PodmanPsContainer, PodmanContainerInspect}
use agentbox_nix.Metadata.{holds}
use agentbox_nix.Session.Record.{
  SessionRecord, canonical_git_root, git_root_hash, is_failed, mark_duplicate,
}
use agentbox_nix.Session.Status.{GitRootProbe}
use agentbox_nix.Session.Discovery.{
  build_session_record, inspect_candidate, discover_step, discover_loop, discover_sessions_from_ps,
}
use agentbox_nix.Session.Discovery.Scope.{
  ContainerDiscoveryScope, GitRootDiscoveryScope, git_root_scope, should_inspect_ps_candidate,
  ScopedSessionCandidate, match, collision, ignore, is_root, hash_match, classify_session,
  SessionCollector, new_collector, collect_candidate, collect_scoped, collect, in_large_group,
  mark_if_duplicate, group_sizes, mark_duplicate_sessions, finish_scoped, finish, ps_candidate,
}

module _ (scope : GitRootDiscoveryScope) where
  -- The session has the git root, or it has no git root and the root's hash.
  abbrev pub Belongs : SessionRecord → Type 0
  Belongs session =
      (is_root (canonical_git_root session) scope.git_root ≡ true)
      ⊎ ((canonical_git_root session ≡ none)
          × (holds (git_root_hash session) scope.git_root_hash ≡ true))

  hash_match-Belongs :
      (session s : SessionRecord) (root : Option FilePath)
      → hash_match session root ≡ match s
      → (root ≡ none) × (session ≡ s)
  hash_match-Belongs session s none h = (refl, ground arith)
  hash_match-Belongs session s (some root) h = cc

  classify-Belongs :
      (session s : SessionRecord) → classify_session scope session ≡ match s → Belongs s
  unfolding classify_session
  classify-Belongs session s h =
      elim (Bool-cases (is_root (canonical_git_root session) scope.git_root)) [
        | inl here ↦ let same : session ≡ s = ground arith in subst Belongs same (inl here)
        | inr away ↦ elim (Bool-cases (holds (git_root_hash session) scope.git_root_hash)) [
          | inl hashed ↦
              let matched : hash_match session (canonical_git_root session) ≡ match s =
                ground arith in
              let (missing, same) =
                hash_match-Belongs session s (canonical_git_root session) matched in
              subst Belongs same (inr (missing, hashed))
          | inr other ↦ absurd (ground arith)
        ]
      ]

  abbrev IsScoped : SessionCollector → Type 0
  IsScoped c = (c.scope ≡ git_root_scope scope) × All Belongs c.sessions

  candidate-IsScoped :
      (c : SessionCollector) (candidate : ScopedSessionCandidate)
      → ((s : SessionRecord) → candidate ≡ match s → Belongs s)
      → IsScoped c
      → IsScoped (collect_candidate c candidate)
  candidate-IsScoped c (match session) h (e, bs) =
      (e, All-append Belongs c.sessions (session ∷ []) bs (h session refl, tt))
  candidate-IsScoped c (collision root) h scoped = scoped
  candidate-IsScoped c ignore h scoped = scoped

  collect-IsScoped :
      (c : SessionCollector) (session : SessionRecord) → IsScoped c → IsScoped (collect c session)
  unfolding collect
  collect-IsScoped c session (e, bs) =
      subst (λ sc. IsScoped (collect_scoped sc c session)) (sym e)
        (candidate-IsScoped c (classify_session scope session) (classify-Belongs session) (e, bs))

  mark-Belongs :
      (groups : List (FilePath × ℕ)) (session : SessionRecord)
      → Belongs session
      → Belongs (mark_if_duplicate groups session)
  mark-Belongs groups session h =
      by_tests (is_failed session.status) (in_large_group groups (canonical_git_root session))
    where
      by_tests :
          (a b : Bool)
          → Belongs (if a then session else if b then mark_duplicate session else session)
      by_tests true b = h
      by_tests false true = h
      by_tests false false = h

  marked-Belong :
      (groups : List (FilePath × ℕ)) (sessions : List SessionRecord)
      → All Belongs sessions
      → All Belongs (map (mark_if_duplicate groups) sessions)
  marked-Belong groups [] h = tt
  marked-Belong groups (session ∷ sessions) (h, hs) =
      (mark-Belongs groups session h, marked-Belong groups sessions hs)

  finish-Belong :
      (c : SessionCollector) (sessions : List SessionRecord)
      → IsScoped c
      → finish c ≡ ok sessions
      → All Belongs sessions
  unfolding finish mark_duplicate_sessions
  finish-Belong c sessions (e, bs) h =
      let h' : finish_scoped (git_root_scope scope) c ≡ ok sessions =
        sym (ap (λ sc. finish_scoped sc c) e) ∙ h in
      let out : mark_duplicate_sessions c.sessions ≡ sessions = ground arith in
      subst (All Belongs) out (marked-Belong (group_sizes c.sessions []) c.sessions bs)

  module _ (sha256 : String → List ℕ) (probe : GitRootProbe)
      (inspect_container : String → Result Error PodmanContainerInspect) where
    candidate_round :
        (container : PodmanPsContainer) (kind : AgentboxContainerKind) (c d : SessionCollector)
        → IsScoped c
        → inspect_candidate sha256 probe inspect_container container kind c ≡ ok d
        → IsScoped d
    unfolding inspect_candidate
    candidate_round container kind c d scoped h =
        elim (Bool-cases (should_inspect_ps_candidate c.scope container)) [
          | inl inspects ↦
              let inspected : (inspect_container container.id >>= (λ inspect.
                ok (collect c (build_session_record sha256 probe container inspect kind))))
                  ≡ ok d =
                ground arith in
              let (inspect, _, k) = >>=-eq-ok (inspect_container container.id) _ inspected in
              subst IsScoped (ok_injective Error _ d k) (
                collect-IsScoped c (build_session_record sha256 probe container inspect kind)
                  scoped)
          | inr skips ↦ let same : c ≡ d = ground arith in subst IsScoped same scoped
        ]

    round :
        (candidate : Option (PodmanPsContainer × AgentboxContainerKind)) (c d : SessionCollector)
        → IsScoped c
        → discover_step sha256 probe inspect_container candidate c ≡ ok d
        → IsScoped d
    unfolding discover_step
    round none c d scoped h = subst IsScoped (ok_injective Error c d h) scoped
    round (some (container, kind)) c d scoped h = candidate_round container kind c d scoped h

    loop :
        (owned : ContainerDiscoveryScope) (containers : List PodmanPsContainer)
        (c d : SessionCollector)
        → IsScoped c
        → discover_loop sha256 probe inspect_container owned containers c ≡ ok d
        → IsScoped d
    unfolding discover_loop
    loop owned [] c d scoped h = subst IsScoped (ok_injective Error c d h) scoped
    loop owned (container ∷ containers) c d scoped h =
        let (next, e, k) =
          >>=-eq-ok (discover_step sha256 probe inspect_container (ps_candidate container owned) c)
            _ h in
        loop owned containers next d (round (ps_candidate container owned) c next scoped e) k

    -- A discovery for a git root returns only sessions that have the root, or that have no root and
    -- the root's hash.
    pub discover_sessions_from_ps-Belong :
        (containers : List PodmanPsContainer) (owned : ContainerDiscoveryScope)
        (sessions : List SessionRecord)
        → discover_sessions_from_ps sha256 probe inspect_container containers
            (git_root_scope scope)
            owned
          ≡ ok sessions
        → All Belongs sessions
    unfolding discover_sessions_from_ps new_collector
    discover_sessions_from_ps-Belong containers owned sessions h =
        let (c, e, k) =
          >>=-eq-ok
            (discover_loop sha256 probe inspect_container owned containers
              (new_collector (git_root_scope scope)))
            _ h in
        finish-Belong c sessions (loop owned containers _ c (refl, tt) e) k
