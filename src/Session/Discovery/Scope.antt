-- ===== src/Session/Discovery/Scope.antt =====
-- src/session/discovery/scope.rs: which containers are inspected and kept, and how duplicates are
-- marked.
use agentbox_nix.Shared.{
  ℕ, ◌+◌, String, Bool, true, false, not, Option, none, some, List, [], ◌∷◌, ◌++◌, ltb, is_empty,
  map, Result, ok, err, ◌==◌, string_eq, if◌then◌else◌, compare, Ordering,
}
use agentbox_nix.Shared.Order.{lex}
use agentbox_nix.Text.{codes}
use agentbox_nix.Errors.{Error, identity_collision, AgentboxContainerKind}
use agentbox_nix.Paths.{FilePath, path_eq}
use agentbox_nix.Workspace.{git_root_hash12}
use agentbox_nix.Podman.{PodmanPsContainer}
use agentbox_nix.Metadata.{required_label_value, agentbox_container_kind_from_labels, holds}
use agentbox_nix.Metadata.Label
use agentbox_nix.Session.Record.{
  SessionRecord, canonical_git_root, git_root_hash, is_failed, kind_is_managed, mark_duplicate,
}

pub data ContainerDiscoveryScope : Type 0 where
  managed_sessions agentbox_owned : ContainerDiscoveryScope

unfoldable pub includes : ContainerDiscoveryScope → AgentboxContainerKind → Bool
includes managed_sessions kind = kind_is_managed kind
includes agentbox_owned kind = true

pub record GitRootDiscoveryScope : Type 0 where
  pub git_root : FilePath
  pub git_root_hash : String

pub data SessionDiscoveryScope : Type 0 where
  everything : SessionDiscoveryScope
  git_root_scope : GitRootDiscoveryScope → SessionDiscoveryScope

unfoldable pub for_git_root : (String → List ℕ) → FilePath → SessionDiscoveryScope
for_git_root sha256 git_root =
    git_root_scope (record { git_root = git_root; git_root_hash = git_root_hash12 sha256 git_root })

-- `is_none_or`: a container without the label is inspected.
abbrev pub absent_or_equal : Option String → String → Bool
absent_or_equal none hash = true
absent_or_equal (some value) hash = value == hash

unfoldable pub should_inspect_ps_candidate : SessionDiscoveryScope → PodmanPsContainer → Bool
should_inspect_ps_candidate everything container = true
should_inspect_ps_candidate (git_root_scope scope) container =
    absent_or_equal (required_label_value container.labels Label.git_root_hash) scope.git_root_hash

pub data ScopedSessionCandidate : Type 0 where
  match : SessionRecord → ScopedSessionCandidate
  collision : String → ScopedSessionCandidate
  ignore : ScopedSessionCandidate

abbrev pub is_root : Option FilePath → FilePath → Bool
is_root none root = false
is_root (some path) root = path_eq path root

abbrev pub hash_match : SessionRecord → Option FilePath → ScopedSessionCandidate
hash_match session none = match session
hash_match session (some root) = collision root

unfoldable pub classify_session : GitRootDiscoveryScope → SessionRecord → ScopedSessionCandidate
classify_session scope session =
    if is_root (canonical_git_root session) scope.git_root
    then match session
    else if not (holds (git_root_hash session) scope.git_root_hash)
    then ignore
    else hash_match session (canonical_git_root session)

pub record SessionCollector : Type 0 where
  pub scope : SessionDiscoveryScope
  pub sessions : List SessionRecord
  pub mismatched_roots : List String

unfoldable pub new_collector : SessionDiscoveryScope → SessionCollector
new_collector scope = record { scope = scope; sessions = []; mismatched_roots = [] }

abbrev pub collect_candidate : SessionCollector → ScopedSessionCandidate → SessionCollector
collect_candidate c (match session) = record c { sessions = c.sessions ++ session ∷ [] }
collect_candidate c (collision root) = record c {
  mismatched_roots = c.mismatched_roots ++ root ∷ [];
}
collect_candidate c ignore = c

abbrev pub collect_scoped :
    SessionDiscoveryScope → SessionCollector → SessionRecord → SessionCollector
collect_scoped everything c session = record c { sessions = c.sessions ++ session ∷ [] }
collect_scoped (git_root_scope scope) c session =
    collect_candidate c (classify_session scope session)

unfoldable pub collect : SessionCollector → SessionRecord → SessionCollector
unfolding classify_session
collect c session = collect_scoped c.scope c session

-- `sort` and `dedup` of texts: insertion into a sorted list that keeps one of equal texts.
abbrev pub insert_sorted : String → List String → List String
insert_sorted s [] = s ∷ []
insert_sorted s (t ∷ ts) =
    let rest = insert_sorted s ts in
    elim (lex compare (codes s) (codes t)) [
      | Ordering.lt ↦ s ∷ t ∷ ts
      | Ordering.eq ↦ t ∷ ts
      | Ordering.gt ↦ t ∷ rest
    ]

abbrev pub sort_dedup : List String → List String
sort_dedup [] = []
sort_dedup (s ∷ ss) = insert_sorted s (sort_dedup ss)

-- The map from git roots to numbers of sessions, `*entry(root).or_default() += 1`.
abbrev pub bump : FilePath → List (FilePath × ℕ) → List (FilePath × ℕ)
bump root [] = (root, 1) ∷ []
bump root ((path, count) ∷ groups) =
    if path_eq path root then (path, count + 1) ∷ groups else (path, count) ∷ bump root groups

abbrev pub group_size : FilePath → List (FilePath × ℕ) → Option ℕ
group_size root [] = none
group_size root ((path, count) ∷ groups) =
    if path_eq path root then some count else group_size root groups

abbrev pub bump_rooted : Option FilePath → List (FilePath × ℕ) → List (FilePath × ℕ)
bump_rooted none groups = groups
bump_rooted (some root) groups = bump root groups

-- A failed session does not count.
abbrev pub count_session : SessionRecord → List (FilePath × ℕ) → List (FilePath × ℕ)
count_session session groups =
    if is_failed session.status then groups else bump_rooted (canonical_git_root session) groups

unfoldable pub group_sizes : List SessionRecord → List (FilePath × ℕ) → List (FilePath × ℕ)
group_sizes [] groups = groups
group_sizes (session ∷ sessions) groups = group_sizes sessions (count_session session groups)

abbrev pub more_than_one : Option ℕ → Bool
more_than_one none = false
more_than_one (some count) = ltb 1 count

abbrev pub in_large_group : List (FilePath × ℕ) → Option FilePath → Bool
in_large_group groups none = false
in_large_group groups (some root) = more_than_one (group_size root groups)

abbrev pub mark_if_duplicate : List (FilePath × ℕ) → SessionRecord → SessionRecord
mark_if_duplicate groups session =
    if is_failed session.status
    then session
    else if in_large_group groups (canonical_git_root session)
    then mark_duplicate session
    else session

unfoldable pub mark_duplicate_sessions : List SessionRecord → List SessionRecord
unfolding group_sizes
mark_duplicate_sessions sessions =
    let groups = group_sizes sessions [] in map (mark_if_duplicate groups) sessions

abbrev pub finish_scoped :
    SessionDiscoveryScope → SessionCollector → Result Error (List SessionRecord)
finish_scoped everything c = ok (mark_duplicate_sessions c.sessions)
finish_scoped (git_root_scope scope) c =
    if is_empty (sort_dedup c.mismatched_roots)
    then ok (mark_duplicate_sessions c.sessions)
    else err (identity_collision scope.git_root (sort_dedup c.mismatched_roots))

unfoldable pub finish : SessionCollector → Result Error (List SessionRecord)
finish c = finish_scoped c.scope c

abbrev candidate_of :
    PodmanPsContainer
    → ContainerDiscoveryScope
    → Option AgentboxContainerKind
    → Option (PodmanPsContainer × AgentboxContainerKind)
candidate_of container owned none = none
candidate_of container owned (some kind) =
    if includes owned kind then some (container, kind) else none

unfoldable pub ps_candidate :
    PodmanPsContainer → ContainerDiscoveryScope → Option (PodmanPsContainer × AgentboxContainerKind)
unfolding includes
ps_candidate container owned =
    candidate_of container owned (agentbox_container_kind_from_labels container.labels)
