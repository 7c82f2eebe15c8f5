-- ===== src/Session/Discovery/Duplicates.antt =====
-- The duplicate marks of a discovery, against their description.
use agentbox_nix.Shared.{
  ℕ, ◌+◌, ◌≡◌, refl, inl, inr, ap, ◌∙◌, Bool, false, not, ◌&&◌, Option, none, some, List, [], ◌∷◌,
  ltb, count_if, map, unwrap_or, if◌then◌else◌, arith, Bool-cases,
}
use agentbox_nix.Paths.{FilePath, path_eq}
use agentbox_nix.Paths.Laws.{path_eq_congr, path_eq_sym, path_eq_trans}
use agentbox_nix.Session.Record.{SessionRecord, canonical_git_root, is_failed, mark_duplicate}
use agentbox_nix.Session.Discovery.Scope.{
  is_root, bump, group_size, bump_rooted, count_session, group_sizes, more_than_one, in_large_group,
  mark_if_duplicate, mark_duplicate_sessions,
}

-- Does the session have a root that is the given one, and has it not failed?
abbrev pub claims : FilePath → SessionRecord → Bool
claims root session = not (is_failed session.status) && is_root (canonical_git_root session) root

-- Two sessions or more claim the root.
abbrev pub is_claimed_twice : List SessionRecord → Option FilePath → Bool
is_claimed_twice sessions none = false
is_claimed_twice sessions (some root) = ltb 1 (count_if (claims root) sessions)

size : FilePath → List (FilePath × ℕ) → ℕ
size root groups = unwrap_or (group_size root groups) 0

size_nil : (r : FilePath) → size r [] ≡ 0
unfolding size
size_nil r = refl

size-bump :
    (root r : FilePath) (groups : List (FilePath × ℕ))
    → size r (bump root groups) ≡ (if path_eq root r then 1 else 0) + size r groups
unfolding size
size-bump root r [] = ground arith
size-bump root r ((path, count) ∷ groups) = elim (Bool-cases (path_eq path root)) [
  | inl e ↦ rw e (ground (arith, path_eq_congr path root r e))
  | inr e ↦
      rw e (ground (arith, size-bump root r groups, path_eq_sym root r, path_eq_trans path r root))
]

claim : FilePath → SessionRecord → ℕ
claim r session = if claims r session then 1 else 0

size-count_session :
    (session : SessionRecord) (r : FilePath) (groups : List (FilePath × ℕ))
    → size r (count_session session groups) ≡ claim r session + size r groups
unfolding claim
size-count_session session r groups = elim (Bool-cases (is_failed session.status)) [
  | inl e ↦ rw e (omega arith)
  | inr e ↦ rw e (rooted (canonical_git_root session))
]
  where
    rooted :
        (o : Option FilePath)
        → size r (bump_rooted o groups) ≡ (if is_root o r then 1 else 0) + size r groups
    rooted none = omega arith
    rooted (some root) = size-bump root r groups

size-group_sizes :
    (r : FilePath) (sessions : List SessionRecord) (groups : List (FilePath × ℕ))
    → size r (group_sizes sessions groups) ≡ count_if (claims r) sessions + size r groups
unfolding group_sizes claim
size-group_sizes r [] groups = omega arith
size-group_sizes r (session ∷ sessions) groups = omega (
  arith,
  size-group_sizes r sessions (count_session session groups),
  size-count_session session r groups,
)

more_than_one-size :
    (r : FilePath) (groups : List (FilePath × ℕ))
    → more_than_one (group_size r groups) ≡ ltb 1 (size r groups)
unfolding size
more_than_one-size r groups = ground arith

no_groups :
    (r : FilePath) (sessions : List SessionRecord)
    → size r (group_sizes sessions []) ≡ count_if (claims r) sessions
no_groups r sessions = omega (arith, size-group_sizes r sessions [], size_nil r)

large_iff :
    (sessions : List SessionRecord) (o : Option FilePath)
    → in_large_group (group_sizes sessions []) o ≡ is_claimed_twice sessions o
large_iff sessions none = refl
large_iff sessions (some r) =
    more_than_one-size r (group_sizes sessions []) ∙ ap (ltb 1) (no_groups r sessions)

map_pointwise :
    (f g : SessionRecord → SessionRecord) (sessions : List SessionRecord)
    → ((s : SessionRecord) → f s ≡ g s)
    → map f sessions ≡ map g sessions
map_pointwise f g [] h = refl
map_pointwise f g (s ∷ sessions) h = λ i. h s i ∷ map_pointwise f g sessions h i

-- The record that the discovery reports for a session, written with the whole list of sessions in
-- place of the counts of the groups.
abbrev pub marked : List SessionRecord → SessionRecord → SessionRecord
marked sessions session =
    if is_failed session.status
    then session
    else if is_claimed_twice sessions (canonical_git_root session)
    then mark_duplicate session
    else session

-- Every session keeps its place, and exactly those are marked as duplicates that have not failed and
-- whose git root is claimed by two sessions or more that have not failed; a failed session neither is
-- marked nor makes another a duplicate.
pub mark_duplicate_sessions_lem :
    (sessions : List SessionRecord)
    → mark_duplicate_sessions sessions ≡ map (marked sessions) sessions
unfolding mark_duplicate_sessions
mark_duplicate_sessions_lem sessions =
    map_pointwise (mark_if_duplicate (group_sizes sessions [])) (marked sessions) sessions λ s.
      ap (λ b. if is_failed s.status then s else if b then mark_duplicate s else s)
        (large_iff sessions (canonical_git_root s))
