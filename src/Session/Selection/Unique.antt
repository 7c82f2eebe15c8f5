-- ===== src/Session/Selection/Unique.antt =====
-- The selection by an abbreviated id, described without the map.
use agentbox_nix.Shared.{inl, inr}
use agentbox_nix.Shared.{
  String, ◌≡◌, ◌≢◌, refl, sym, ap, ◌∙◌, ◌↔◌, true, false, Option, none, some, List, [], ◌∷◌, ◌++◌,
  All, filter, ok, string_eq, string_discrete, arith, Bool-cases,
}
use agentbox_nix.Session.Record.{SessionRecord, stable_id}
use agentbox_nix.Session.Selection.{
  StableIdPrefixSelection, Matches, push_match, collect_match, collect_matches, choose_match,
  select_stable_id_prefix_with_noun,
}
use agentbox_nix.Session.Selection.Laws.{
  HasId, has_prefix, matches_prefix, collect_first, append_nil, append_assoc, push_same,
}

match_skip :
    (prefix : String) (s : SessionRecord) (m : Matches) (o : Option String)
    → has_prefix prefix o ≡ false
    → collect_match prefix o s m ≡ m
match_skip prefix s m none h = refl
match_skip prefix s m (some i) h = rw h refl

match_push :
    (prefix id : String) (s : SessionRecord) (m : Matches)
    → matches_prefix prefix s ≡ true
    → stable_id s ≡ some id
    → collect_match prefix (stable_id s) s m ≡ push_match id s m
match_push prefix id s m h e = rw e (rw (sym (ap (has_prefix prefix) e) ∙ h) refl)

collect-All :
    (prefix id : String) (sessions ms : List SessionRecord)
    → All (HasId prefix id) sessions
    → collect_matches prefix sessions ((id, ms) ∷ [])
      ≡ (id, ms ++ filter (matches_prefix prefix) sessions) ∷ []
unfolding collect_matches
collect-All prefix id [] ms h = ap (λ r. (id, r) ∷ []) (sym (append_nil ms))
collect-All prefix id (s ∷ sessions) ms (h, hs) = elim (Bool-cases (matches_prefix prefix s)) [
  | inr e ↦
      ap (collect_matches prefix sessions) (match_skip prefix s ((id, ms) ∷ []) (stable_id s) e)
      ∙ collect-All prefix id sessions ms hs
      ∙ rw e refl
  | inl e ↦
      ap (collect_matches prefix sessions)
        (match_push prefix id s ((id, ms) ∷ []) e (h e) ∙ push_same id s ms)
      ∙ collect-All prefix id sessions (ms ++ s ∷ []) hs
      ∙ ap (λ r. (id, r) ∷ [])
          (append_assoc ms (s ∷ []) (filter (matches_prefix prefix) sessions) ∙ rw e refl)
]

collect_from_nil :
    (prefix id : String) (sessions : List SessionRecord)
    → All (HasId prefix id) sessions
    → filter (matches_prefix prefix) sessions ≢ []
    → collect_matches prefix sessions [] ≡ (id, filter (matches_prefix prefix) sessions) ∷ []
unfolding collect_matches
collect_from_nil prefix id [] h n = absurd (n refl)
collect_from_nil prefix id (s ∷ sessions) (h, hs) n = elim (Bool-cases (matches_prefix prefix s)) [
  | inr e ↦
      ap (collect_matches prefix sessions) (match_skip prefix s [] (stable_id s) e)
      ∙ collect_from_nil prefix id sessions hs (λ z. n (rw e z))
      ∙ rw e refl
  | inl e ↦
      ap (collect_matches prefix sessions) (match_push prefix id s [] e (h e))
      ∙ collect-All prefix id sessions (s ∷ []) hs
      ∙ rw e refl
]

one_match :
    (prefix noun : String) (s : StableIdPrefixSelection) (m : Matches)
    → choose_match prefix noun m ≡ ok s
    → m ≡ (s.id, s.sessions) ∷ []
one_match prefix noun s [] h = cc
one_match prefix noun s ((id, out) ∷ []) h = ground arith
one_match prefix noun s (a ∷ b ∷ m) h = cc

selected_parts :
    (sessions : List SessionRecord) (prefix noun : String) (s : StableIdPrefixSelection)
    → select_stable_id_prefix_with_noun sessions prefix noun ≡ ok s
    → (prefix ≢ "") × (collect_matches prefix sessions [] ≡ (s.id, s.sessions) ∷ [])
unfolding select_stable_id_prefix_with_noun
selected_parts sessions prefix noun s h = elim (string_discrete prefix "") [
  | yes e ↦ absurd (ground arith)
  | no n ↦ (n, one_match prefix noun s (collect_matches prefix sessions []) (ground arith))
]

-- A selection names an id and lists sessions. It is made exactly when the prefix is not empty, at
-- least one session has an id with the prefix (letter case aside), and all such sessions have the
-- named id; and it lists all of them, in their order.
pub select_stable_id_prefix_iff :
    (sessions : List SessionRecord) (prefix noun : String) (s : StableIdPrefixSelection)
    → (select_stable_id_prefix_with_noun sessions prefix noun ≡ ok s) ↔ (
        (prefix ≢ "")
        × All (HasId prefix s.id) sessions
        × (filter (matches_prefix prefix) sessions ≢ [])
        × (s.sessions ≡ filter (matches_prefix prefix) sessions))
unfolding select_stable_id_prefix_with_noun
select_stable_id_prefix_iff sessions prefix noun s = (
  λ h.
      let (n, m) = selected_parts sessions prefix noun s h in
      let c = collect_first prefix s.id sessions s.sessions m in
      (n, c.one_id, λ z. c.some_here (c.all_here ∙ z), c.all_here),
  λ (n, hs, some_here, all_here). ground (
    arith,
    collect_from_nil prefix s.id sessions hs some_here ∙ ap (λ r. (s.id, r) ∷ []) (sym all_here),
  ),
)
