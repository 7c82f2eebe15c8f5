-- ===== src/Session/Collection.antt =====
-- src/session/collection.rs: sessions grouped by their git roots, and the sessions of one root.
pub mod Laws
use agentbox_nix.Shared.{
  String, Bool, true, false, Option, none, some, List, [], ◌∷◌, ◌++◌, filter, map, if◌then◌else◌,
  Ordering, compare,
}
use agentbox_nix.Shared.Order.{lex, then}
use agentbox_nix.Text.{codes}
use agentbox_nix.Paths.{FilePath, path_eq, path_compare}
use agentbox_nix.Session.Record.{SessionRecord, canonical_git_root}
use agentbox_nix.Session.Discovery.Scope.{is_root}

-- `SessionGroup` of src/session/record.rs
pub record SessionGroup : Type 0 where
  pub canonical_git_root : FilePath
  pub sessions : List SessionRecord

pub record SessionRootPartition : Type 0 where
  pub rooted : List SessionGroup
  pub unrooted : List SessionRecord

unfoldable pub exact_git_root_matches : List SessionRecord → FilePath → List SessionRecord
exact_git_root_matches sessions git_root =
    filter (λ session. is_root (canonical_git_root session) git_root) sessions

-- `entry(root).or_default().push(session)` of the `BTreeMap`, which is kept in the order of roots:
-- the place of the session beside a group, by the order of their roots.
abbrev pub place :
    Ordering
    → FilePath
    → SessionRecord
    → SessionGroup
    → (groups rest : List SessionGroup) → List SessionGroup
place Ordering.lt root session group groups rest =
    record { canonical_git_root = root; sessions = session ∷ [] } ∷ group ∷ groups
place Ordering.eq root session group groups rest =
    record group { sessions = group.sessions ++ session ∷ [] } ∷ groups
place Ordering.gt root session group groups rest = group ∷ rest

unfoldable pub push_group : FilePath → SessionRecord → List SessionGroup → List SessionGroup
push_group root session [] = record { canonical_git_root = root; sessions = session ∷ [] } ∷ []
push_group root session (group ∷ groups) =
    place (path_compare root group.canonical_git_root) root session group groups
      (push_group root session groups)

abbrev pub partition_step :
    Option FilePath → SessionRecord → SessionRootPartition → SessionRootPartition
partition_step none session p = record p { unrooted = p.unrooted ++ session ∷ [] }
partition_step (some root) session p = record p { rooted = push_group root session p.rooted }

-- The loop over the sessions.
unfoldable pub partition_from : List SessionRecord → SessionRootPartition → SessionRootPartition
partition_from [] p = p
partition_from (session ∷ sessions) p =
    partition_from sessions (partition_step (canonical_git_root session) session p)

abbrev pub partition_sessions_by_git_root : List SessionRecord → SessionRootPartition
partition_sessions_by_git_root sessions =
    partition_from sessions (record { rooted = []; unrooted = [] })

abbrev pub group_sessions_by_git_root : List SessionRecord → List SessionGroup
group_sessions_by_git_root sessions = (partition_sessions_by_git_root sessions).rooted

-- `Option::cmp`
abbrev option_compare : Option String → Option String → Ordering
option_compare none none = Ordering.eq
option_compare none (some _) = Ordering.lt
option_compare (some _) none = Ordering.gt
option_compare (some s) (some t) = lex compare (codes s) (codes t)

unfoldable pub compare_sessions_by_identity : SessionRecord → SessionRecord → Ordering
compare_sessions_by_identity left right =
    (then) (option_compare (canonical_git_root left) (canonical_git_root right))
      (lex compare (codes left.container_name) (codes right.container_name))

-- `sort_by`, which is stable: a session goes before the first one that is not less.
abbrev pub insert_session : SessionRecord → List SessionRecord → List SessionRecord
unfolding compare_sessions_by_identity
insert_session session [] = session ∷ []
insert_session session (other ∷ others) =
    let rest = insert_session session others in
    elim (compare_sessions_by_identity session other) [
      | Ordering.gt ↦ other ∷ rest
      | _ ↦ session ∷ other ∷ others
    ]

unfoldable pub sorted_sessions_by_identity : List SessionRecord → List SessionRecord
sorted_sessions_by_identity [] = []
sorted_sessions_by_identity (session ∷ sessions) =
    insert_session session (sorted_sessions_by_identity sessions)
