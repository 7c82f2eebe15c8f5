-- ===== src/Session/Target/Health/Laws.antt =====
-- Only running sessions are probed, and one at most when a target is named.
use agentbox_nix.Shared.{ok_or}
use agentbox_nix.Session.Selection.{single, select_stable_id_prefix}
use agentbox_nix.Errors.{many_sessions_of_id}
use agentbox_nix.Shared.{subst}
use agentbox_nix.Shared.{
  String, ◌≡◌, refl, Bool, true, false, List, [], ◌∷◌, All, filter, length, ok, >>=-eq-ok, arith,
  Bool-cases, inl, inr,
}
use agentbox_nix.Session.Record.{SessionRecord, is_running}
use agentbox_nix.Session.Collection.{exact_git_root_matches}
use agentbox_nix.Session.Target.Health.{
  HealthSessionTargetPlan, running_sessions, id_prefix, workspace, running_only,
  single_workspace_match, select_sessions,
}

abbrev pub IsRunning : SessionRecord → Type 0
IsRunning session = is_running session ≡ true

-- The plans that name a target.
abbrev pub names_target : HealthSessionTargetPlan → Bool
names_target running_sessions = false
names_target (id_prefix _) = true
names_target (workspace _) = true

filter-IsRunning : (sessions : List SessionRecord) → All IsRunning (filter is_running sessions)
filter-IsRunning [] = tt
filter-IsRunning (s ∷ sessions) = elim (Bool-cases (is_running s)) [
  | inl e ↦ rw e (e, filter-IsRunning sessions)
  | inr e ↦ rw e (filter-IsRunning sessions)
]

probed_one :
    (target : String) (session : SessionRecord) (out : List SessionRecord)
    → running_only target session ≡ ok out
    → All IsRunning out × (length out ≡ 1)
probed_one target session out h = elim (Bool-cases (is_running session)) [
  | inr e ↦ absurd (ground arith)
  | inl e ↦
      let same : session ∷ [] ≡ out = ground arith in
      subst (λ o. All IsRunning o × (length o ≡ 1)) same ((e, tt), refl)
]

-- The sessions that are probed are running; and a target stands for exactly one of them.
pub select_sessions_lem :
    (plan : HealthSessionTargetPlan) (sessions out : List SessionRecord)
    → select_sessions plan sessions ≡ ok out
    → All IsRunning out × (names_target plan ≡ true → length out ≡ 1)
unfolding select_sessions
select_sessions_lem running_sessions sessions out h =
    let same : filter is_running sessions ≡ out = ground arith in
    (subst (All IsRunning) same (filter-IsRunning sessions), λ n. cc)
select_sessions_lem (workspace root) sessions out h =
    let (session, _, k) =
      >>=-eq-ok (single_workspace_match root (exact_git_root_matches sessions root)) _ h in
    let (hs, n) = probed_one _ session out k in (hs, λ _. n)
select_sessions_lem (id_prefix prefix) sessions out h =
    let (selection, _, k) = >>=-eq-ok (select_stable_id_prefix sessions prefix) _ h in
    let (session, _, l) =
      >>=-eq-ok (ok_or (single selection.sessions) (many_sessions_of_id selection.id)) _ k in
    let (hs, n) = probed_one _ session out l in (hs, λ _. n)
