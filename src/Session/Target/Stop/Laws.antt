-- ===== src/Session/Target/Stop/Laws.antt =====
-- What a stop by id takes, and when it asks for `--force`.
use agentbox_nix.Shared.{◌∷◌}
use agentbox_nix.Shared.{
  String, ◌≡◌, ◌≢◌, refl, sym, ◌∙◌, ◌↔◌, false, List, [], All, length, ltb, filter, ok, >>=-eq-ok,
  arith, subst, ap,
}
use agentbox_nix.Errors.{stop}
use agentbox_nix.Session.Record.{SessionRecord}
use agentbox_nix.Session.Selection.{select_agentbox_stable_id_prefix}
use agentbox_nix.Session.Selection.Laws.{HasId, matches_prefix}
use agentbox_nix.Session.Selection.Unique.{select_stable_id_prefix_iff}
use agentbox_nix.Session.Target.Input.{SessionTargetInput}
use agentbox_nix.Session.Target.Selected.{
  StableIdTargetSelection, has_duplicate_sessions, into_all_rooted_sessions,
  select_agentbox_stable_id_target,
}
use agentbox_nix.Session.Target.Selected.Laws.{IsRooted, into_all_rooted_sessions_lem}
use agentbox_nix.Session.Target.Stop.{StopStableIdTarget, by_id, plan_by_id, require_force}

-- What a selected target is: the sessions with the id, all of them.
pub selected_target :
    (sessions : List SessionRecord) (prefix : String) (t : StableIdTargetSelection)
    → select_agentbox_stable_id_target sessions prefix ≡ ok t
    → All (HasId prefix t.id) sessions × (t.sessions ≡ filter (matches_prefix prefix) sessions)
selected_target sessions prefix t h =
    let (s, e, k) = >>=-eq-ok (select_agentbox_stable_id_prefix sessions prefix) _ h in
    let (_, ids, _, all_here) =
      (select_stable_id_prefix_iff sessions prefix "agentbox container" s).0 e in
    let same_id : s.id ≡ t.id = ground arith in
    let same : s.sessions ≡ t.sessions = ground arith in
    (subst (λ i. All (HasId prefix i) sessions) same_id ids, sym same ∙ all_here)

-- A stop by id that is planned takes exactly the sessions whose id has the prefix, in their order:
-- at least one, all with the one id that the plan names, and all with a git root; so no stop is
-- planned where only the id of a session can be recovered. It counts as duplicated when there are
-- several.
pub plan_by_id_lem :
    (sessions : List SessionRecord) (prefix : String) (plan : StopStableIdTarget)
    → plan_by_id sessions prefix ≡ ok (by_id plan)
    → All (HasId prefix plan.id) sessions
      × (plan.sessions ≡ filter (matches_prefix prefix) sessions)
      × All IsRooted plan.sessions
      × (plan.sessions ≢ [])
      × (plan.has_duplicates ≡ ltb 1 (length plan.sessions))
plan_by_id_lem sessions prefix plan h =
    let (t, e, k) = >>=-eq-ok (select_agentbox_stable_id_target sessions prefix) _ h in
    let (rooted, r, l) = >>=-eq-ok (into_all_rooted_sessions t stop) _ k in
    let (ids, all_here) = selected_target sessions prefix t e in
    let (whole, hs, n) = into_all_rooted_sessions_lem t stop rooted r in
    let same_id : t.id ≡ plan.id = ground arith in
    let same : rooted ≡ plan.sessions = ground arith in
    let flag : has_duplicate_sessions t ≡ plan.has_duplicates = ground arith in
    (
      subst (λ i. All (HasId prefix i) sessions) same_id ids,
      sym same ∙ whole ∙ all_here,
      subst (All IsRooted) same hs,
      λ z. n (same ∙ z),
      sym flag ∙ ap (λ r. ltb 1 (length r)) (sym whole ∙ same),
    )

-- Without `--force` a stop by id that is planned goes on exactly when the plan has one session.
pub require_force_lem :
    (sessions : List SessionRecord) (prefix : String) (plan : StopStableIdTarget)
    (target : SessionTargetInput)
    → plan_by_id sessions prefix ≡ ok (by_id plan)
    → (require_force plan false target ≡ ok tt) ↔ (length plan.sessions ≡ 1)
require_force_lem sessions prefix plan target h =
    let (_, _, _, n, flag) = plan_by_id_lem sessions prefix plan h in
    by_count plan.sessions refl flag n
  where
    by_count :
        (found : List SessionRecord)
        → plan.sessions ≡ found
        → plan.has_duplicates ≡ ltb 1 (length found)
        → found ≢ []
        → (require_force plan false target ≡ ok tt) ↔ (length found ≡ 1)
    by_count [] e flag n = absurd (n refl)
    by_count (a ∷ []) e flag n = (λ _. refl, λ _. ground arith)
    by_count (a ∷ b ∷ found) e flag n = (λ k. absurd (ground arith), λ k. absurd (ground arith))
