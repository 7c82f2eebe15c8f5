-- ===== src/Session/Target/Restart/Laws.antt =====
-- What holds of the session that a restart selects under the lock.
use agentbox_nix.Shared.{Option, none, some}
use agentbox_nix.Shared.{
  ℕ, String, ◌≡◌, sym, ◌∙◌, ap, inl, inr, Bool, true, List, [], ◌∷◌, any, filter, Result, ok,
  >>=-eq-ok, arith, Bool-cases,
}
use agentbox_nix.Errors.{Error}
use agentbox_nix.Paths.{FilePath, path_eq}
use agentbox_nix.Paths.Laws.{path_eq_sym, path_eq_trans}
use agentbox_nix.Session.Record.{SessionRecord, canonical_git_root}
use agentbox_nix.Session.Collection.{exact_git_root_matches}
use agentbox_nix.Workspace.{git_root_hash12}
use agentbox_nix.Podman.{PodmanPsContainer, PodmanContainerInspect}
use agentbox_nix.Session.Status.{GitRootProbe}
use agentbox_nix.Session.Discovery.{discover_sessions_from_ps}
use agentbox_nix.Session.Discovery.Scope.{
  is_root, GitRootDiscoveryScope, git_root_scope, agentbox_owned,
}
use agentbox_nix.Session.Discovery.Scoped.{Belongs, discover_sessions_from_ps-Belong}
use agentbox_nix.Session.Target.Input.{
  System, SessionTargetInput, ResolvedSessionTarget, resolved_git_root, exact_stored_git_root_path,
  stable_id_prefix, resolve,
}
use agentbox_nix.Session.Target.Selected.{StableIdTargetSelection, select_agentbox_stable_id_target}
use agentbox_nix.Session.Target.Restart.{
  RestartSessionTargetPlan, require_single_restart_target_match,
  require_locked_restart_target_unchanged, require_stable_id_still_matches_locked_root,
  matching_resolved, select_session_candidate,
}

only_one :
    (sessions : List SessionRecord) (target : SessionTargetInput) (session : SessionRecord)
    → require_single_restart_target_match sessions target ≡ ok session
    → sessions ≡ session ∷ []
only_one [] target session h = cc
only_one (s ∷ []) target session h = ground arith
only_one (a ∷ b ∷ sessions) target session h = cc

unchanged :
    (locked root : FilePath) {u : Unit {0}}
    → require_locked_restart_target_unchanged locked root ≡ ok u
    → path_eq locked root ≡ true
unchanged locked root h = ground arith

root_transfer :
    (locked root : FilePath) (session : SessionRecord)
    → path_eq locked root ≡ true
    → is_root (canonical_git_root session) root ≡ true
    → is_root (canonical_git_root session) locked ≡ true
root_transfer locked root session h k = by_root (canonical_git_root session) k
  where
    by_root : (o : Option FilePath) → is_root o root ≡ true → is_root o locked ≡ true
    by_root none k = cc
    by_root (some path) k = path_eq_trans path root locked k (path_eq_sym locked root h)

filter_one :
    (p : SessionRecord → Bool) (sessions : List SessionRecord) (session : SessionRecord)
    (rest : List SessionRecord)
    → filter p sessions ≡ session ∷ rest
    → p session ≡ true
filter_one p [] session rest h = cc
filter_one p (s ∷ sessions) session rest h = elim (Bool-cases (p s)) [
  | inl e ↦ let same : s ≡ session = ground arith in sym (ap p same) ∙ e
  | inr e ↦ filter_one p sessions session rest (ground arith)
]

-- Podman's containers when the lock is held, and what a discovery of all sessions returns then.
module _ (sha256 : String → List ℕ) (probe : GitRootProbe)
    (inspect_container : String → Result Error PodmanContainerInspect)
    (containers : List PodmanPsContainer) (all_sessions : Result Error (List SessionRecord))
    (locked : FilePath) (session : SessionRecord) where
  abbrev pub root_scope : GitRootDiscoveryScope
  root_scope = record { git_root = locked; git_root_hash = git_root_hash12 sha256 locked }

  -- `LockedGitRoot::discover_sessions`
  abbrev pub locked_sessions : Result Error (List SessionRecord)
  locked_sessions =
      discover_sessions_from_ps sha256 probe inspect_container containers
        (git_root_scope root_scope) agentbox_owned

  abbrev pub HasRoot : Type 0
  HasRoot = is_root (canonical_git_root session) locked ≡ true

  -- The target that was resolved again still stands for the locked root, and matches this session alone,
  -- which is one of the locked root.
  abbrev pub Matches : ResolvedSessionTarget → Type 0
  Matches (resolved_git_root root) =
      (path_eq locked root ≡ true)
      × (locked_sessions ≡ ok (session ∷ []))
      × Belongs root_scope session
  Matches (exact_stored_git_root_path root) =
      (path_eq locked root ≡ true)
      × (sessions : List SessionRecord) × (all_sessions ≡ ok sessions)
      × (filter (λ s. is_root (canonical_git_root s) root) sessions ≡ session ∷ [])
      × HasRoot
  Matches (stable_id_prefix prefix) =
      (sessions : List SessionRecord) × (selection : StableIdTargetSelection) × (all_sessions
        ≡ ok sessions)
      × (select_agentbox_stable_id_target sessions prefix ≡ ok selection)
      × (selection.sessions ≡ session ∷ [])
      × HasRoot

  one_matching :
      (resolved : ResolvedSessionTarget)
      → matching_resolved locked locked_sessions all_sessions resolved ≡ ok (session ∷ [])
      → Matches resolved
  unfolding exact_git_root_matches
  one_matching (resolved_git_root root) h =
      let (_, u, k) = >>=-eq-ok (require_locked_restart_target_unchanged locked root) _ h in
      (
        unchanged locked root u,
        k,
        (discover_sessions_from_ps-Belong root_scope sha256 probe inspect_container containers
            agentbox_owned (session ∷ []) k).0,
      )
  one_matching (exact_stored_git_root_path root) h =
      let (_, u, k) = >>=-eq-ok (require_locked_restart_target_unchanged locked root) _ h in
      let (sessions, e, l) = >>=-eq-ok all_sessions _ k in
      let found : exact_git_root_matches sessions root ≡ session ∷ [] = ground arith in
      (
        unchanged locked root u,
        sessions,
        e,
        found,
        root_transfer locked root session (unchanged locked root u)
            (filter_one (λ s. is_root (canonical_git_root s) root) sessions session [] found),
      )
  one_matching (stable_id_prefix prefix) h =
      let (sessions, e, k) = >>=-eq-ok all_sessions _ h in
      let (t, r, l) = >>=-eq-ok (select_agentbox_stable_id_target sessions prefix) _ k in
      let (_, u, m) =
        >>=-eq-ok (require_stable_id_still_matches_locked_root locked t.sessions) _ l in
      let found : t.sessions ≡ session ∷ [] = ground arith in
      let any_here : any (λ s. is_root (canonical_git_root s) locked) t.sessions ≡ true =
        ground arith in
      let here : any (λ s. is_root (canonical_git_root s) locked) (session ∷ []) ≡ true =
        sym (ap (any (λ s. is_root (canonical_git_root s) locked)) found) ∙ any_here in
      (sessions, t, e, r, found, ground arith)

  -- A restart selects a session under the lock only if the target, resolved again, is still the locked
  -- root or an id, and the session is its only match: among what a discovery for the locked root
  -- returns for a directory, and among all sessions for a stored root or an id. The session has the
  -- locked git root; only for a directory can it be one without a git root and with the root's hash.
  pub select_session_candidate_lem :
      (system : System) (plan : RestartSessionTargetPlan)
      → select_session_candidate system plan locked locked_sessions all_sessions ≡ ok session
      → (resolved : ResolvedSessionTarget) × (resolve system plan.input ≡ ok resolved)
        × Matches resolved
  unfolding select_session_candidate
  select_session_candidate_lem system plan h =
      let (resolved, r, k) = >>=-eq-ok (resolve system plan.input) _ h in
      let (sessions, m, l) =
        >>=-eq-ok (matching_resolved locked locked_sessions all_sessions resolved) _ k in
      (resolved, r, one_matching resolved (m ∙ ap ok (only_one sessions plan.input session l)))
