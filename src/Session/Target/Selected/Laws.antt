-- ===== src/Session/Target/Selected/Laws.antt =====
-- Which root is the single one of a selection, and which selections are rooted throughout.
use agentbox_nix.Shared.{subst, push_some, ◌||◌}
use agentbox_nix.Session.Target.Selected.{place_root}
use agentbox_nix.Errors.{no_recoverable_git_root, unrooted_matches}
use agentbox_nix.Shared.{
  ◌≤◌, String, ◌≡◌, ◌≢◌, refl, sym, ap, ◌∙◌, true, not, Option, none, some, List, [], ◌∷◌, All,
  filter, filter_map, length, any, is_empty, eqb, ok, err, if◌then◌else◌, Ordering, arith,
  Bool-cases, inl, inr,
}
use agentbox_nix.Errors.{StableIdTargetAction}
use agentbox_nix.Paths.{FilePath, path_eq, path_compare}
use agentbox_nix.Paths.Laws.{path_eq_refl}
use agentbox_nix.Session.Record.{SessionRecord, canonical_git_root}
use agentbox_nix.Session.Discovery.Scope.{is_root}
use agentbox_nix.Session.Target.Selected.{
  StableIdTargetSelection, insert_root, sort_roots, dedup_after, dedup, recoverable_git_roots,
  single_root, single_recoverable_git_root, is_rooted, into_all_rooted_sessions,
}

abbrev IsRoot : FilePath → FilePath → Type 0
IsRoot root path = path_eq path root ≡ true

dedup_after_none :
    (root : FilePath) (roots : List FilePath)
    → dedup_after root roots ≡ []
    → All (IsRoot root) roots
dedup_after_none root [] h = tt
dedup_after_none root (r ∷ roots) h = elim (Bool-cases (path_eq r root)) [
  | inl e ↦ (e, dedup_after_none root roots (rw e at h))
  | inr e ↦ absurd (ground arith)
]

place_root-All :
    (P : FilePath → Type 0) (o : Ordering) (root r : FilePath) (roots rest : List FilePath)
    → (All P rest → P root × All P roots)
    → All P (place_root o root r roots rest)
    → P root × All P (r ∷ roots)
place_root-All P Ordering.lt root r roots rest ih h = h
place_root-All P Ordering.eq root r roots rest ih h = h
place_root-All P Ordering.gt root r roots rest ih (p, k) = let (q, l) = ih k in (q, (p, l))

insert_root-All :
    (P : FilePath → Type 0) (root : FilePath) (roots : List FilePath)
    → All P (insert_root root roots)
    → P root × All P roots
insert_root-All P root [] h = h
insert_root-All P root (r ∷ roots) h =
    place_root-All P (path_compare root r) root r roots (insert_root root roots)
      (insert_root-All P root roots) h

sort_roots-All :
    (P : FilePath → Type 0) (roots : List FilePath) → All P (sort_roots roots) → All P roots
sort_roots-All P [] h = tt
sort_roots-All P (r ∷ roots) h =
    let (p, k) = insert_root-All P r (sort_roots roots) h in (p, sort_roots-All P roots k)

-- A root that is known is the given one.
abbrev pub HasRoot : FilePath → SessionRecord → Type 0
HasRoot root session =
    (path : FilePath) → canonical_git_root session ≡ some path → path_eq path root ≡ true

known-All :
    (root : FilePath) (session : SessionRecord) (sessions : List SessionRecord)
    (o : Option FilePath) (found : List FilePath)
    → canonical_git_root session ≡ o
    → (All (IsRoot root) found → All (HasRoot root) sessions)
    → All (IsRoot root) (push_some o found)
    → All (HasRoot root) (session ∷ sessions)
known-All root session sessions none found e ih h = (λ path p. absurd (ground arith), ih h)
known-All root session sessions (some r) found e ih (a, k) = (λ path p. ground arith, ih k)

roots-All :
    (root : FilePath) (sessions : List SessionRecord)
    → All (IsRoot root) (filter_map canonical_git_root sessions)
    → All (HasRoot root) sessions
roots-All root [] h = tt
roots-All root (session ∷ sessions) h =
    known-All root session sessions (canonical_git_root session)
      (filter_map canonical_git_root sessions) refl (roots-All root sessions) h

one_root :
    (id root : String) (action : StableIdTargetAction) (roots : List FilePath)
    → single_root id action roots ≡ ok root
    → roots ≡ root ∷ []
one_root id root action [] h = cc
one_root id root action (r ∷ []) h = ground arith
one_root id root action (r ∷ q ∷ roots) h = cc

dedup_one :
    (root : FilePath) (roots : List FilePath) → dedup roots ≡ root ∷ [] → All (IsRoot root) roots
dedup_one root [] h = cc
dedup_one root (r ∷ roots) h =
    let same : r ≡ root = ground arith in
    let rest : dedup_after r roots ≡ [] = ground arith in
    subst (λ q. All (IsRoot q) (r ∷ roots)) same (path_eq_refl r, dedup_after_none r roots rest)

known_some :
    (root : FilePath) (sessions : List SessionRecord) (o : Option FilePath) (found : List FilePath)
    → ((path : FilePath) → o ≡ some path → path_eq path root ≡ true)
    → (found ≢ [] → any (λ s. is_root (canonical_git_root s) root) sessions ≡ true)
    → push_some o found ≢ []
    → is_root o root || any (λ s. is_root (canonical_git_root s) root) sessions ≡ true
known_some root sessions none found h ih n = ih n
known_some root sessions (some r) found h ih n = ground (arith, h r refl)

some_root :
    (root : FilePath) (sessions : List SessionRecord)
    → All (HasRoot root) sessions
    → filter_map canonical_git_root sessions ≢ []
    → any (λ s. is_root (canonical_git_root s) root) sessions ≡ true
some_root root [] hs n = absurd (n refl)
some_root root (session ∷ sessions) (h, hs) n =
    known_some root sessions (canonical_git_root session) (filter_map canonical_git_root sessions) h
      (some_root root sessions hs) n

-- When a restart by id finds its single git root, every selected session whose git root is known
-- has that root, and at least one session has it.
pub single_recoverable_git_root_lem :
    (selection : StableIdTargetSelection) (action : StableIdTargetAction) (root : FilePath)
    → single_recoverable_git_root selection action ≡ ok root
    → All (HasRoot root) selection.sessions
      × (any (λ s. is_root (canonical_git_root s) root) selection.sessions ≡ true)
unfolding single_recoverable_git_root
single_recoverable_git_root_lem selection action root h =
    let one = one_root selection.id root action (recoverable_git_roots selection.sessions) h in
    let found = filter_map canonical_git_root selection.sessions in
    let rooted =
      roots-All root selection.sessions
        (sort_roots-All (IsRoot root) found (dedup_one root (sort_roots found) one)) in
    (
      rooted,
      some_root root selection.sessions rooted
          (λ z. cc (sym one ∙ ap (λ r. dedup (sort_roots r)) z)),
    )

abbrev pub IsRooted : SessionRecord → Type 0
IsRooted session = is_rooted session ≡ true

filter_shorter :
    (sessions : List SessionRecord) → length (filter is_rooted sessions) ≤ length sessions
filter_shorter [] = omega arith
filter_shorter (s ∷ sessions) = ground (arith, filter_shorter sessions)

filter_whole :
    (sessions : List SessionRecord)
    → length (filter is_rooted sessions) ≡ length sessions
    → All IsRooted sessions × (filter is_rooted sessions ≡ sessions)
filter_whole [] h = (tt, refl)
filter_whole (s ∷ sessions) h = elim (Bool-cases (is_rooted s)) [
  | inr e ↦ absurd (ground (arith, filter_shorter sessions))
  | inl e ↦
      let (hs, same) = filter_whole sessions (ground arith) in
      ((e, hs), rw e (ap (λ r. s ∷ r) same))
]

-- The sessions of a selection that a stop takes are all of them, at least one, and all have a git
-- root.
pub into_all_rooted_sessions_lem :
    (selection : StableIdTargetSelection) (action : StableIdTargetAction)
    (rooted : List SessionRecord)
    → into_all_rooted_sessions selection action ≡ ok rooted
    → (rooted ≡ selection.sessions) × All IsRooted rooted × (rooted ≢ [])
unfolding into_all_rooted_sessions
into_all_rooted_sessions_lem selection action rooted h =
    taken (filter is_rooted selection.sessions) refl h
  where
    taken :
        (found : List SessionRecord)
        → filter is_rooted selection.sessions ≡ found
        → (if is_empty found
            then err (no_recoverable_git_root selection.id action)
            else if not (eqb (length found) (length selection.sessions))
            then err (unrooted_matches selection.id action)
            else ok found)
          ≡ ok rooted
        → (rooted ≡ selection.sessions) × All IsRooted rooted × (rooted ≢ [])
    taken [] e k = cc
    taken (s ∷ found) e k =
        let same_length : length (filter is_rooted selection.sessions) ≡ length selection.sessions =
          rw e (ground arith) in
        let (hs, same) = filter_whole selection.sessions same_length in
        let out : rooted ≡ s ∷ found = ground arith in
        let whole = out ∙ sym e ∙ same in
        (whole, subst (All IsRooted) (sym whole) hs, λ z. cc (out, z))
