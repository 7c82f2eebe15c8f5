-- ===== src/Session/Target/Selected.antt =====
-- src/session/target/stable_id.rs: the sessions that an abbreviated id selects, and their git root.
pub mod Laws
use agentbox_nix.Shared.{
  ℕ, suc, String, Bool, true, false, Option, none, some, List, [], ◌∷◌, filter, filter_map, length,
  is_some, is_empty, ltb, eqb, not, Result, ok, err, ◌>>=◌, if◌then◌else◌, Ordering,
}
use agentbox_nix.Errors.{
  Error, StableIdTargetAction, no_recoverable_git_root, multiple_git_roots, unrooted_matches,
}
use agentbox_nix.Paths.{FilePath, path_eq, path_compare}
use agentbox_nix.Session.Record.{SessionRecord, canonical_git_root}
use agentbox_nix.Session.Selection.{StableIdPrefixSelection, select_agentbox_stable_id_prefix}

pub record StableIdTargetSelection : Type 0 where
  pub id : String
  pub sessions : List SessionRecord

abbrev pub has_duplicate_sessions : StableIdTargetSelection → Bool
has_duplicate_sessions selection = ltb 1 (length selection.sessions)

-- `sort`, which is stable: a root goes before the first one that is not less.
abbrev pub place_root :
    Ordering → FilePath → FilePath → (others rest : List FilePath) → List FilePath
place_root Ordering.gt root other others rest = other ∷ rest
place_root Ordering.lt root other others rest = root ∷ other ∷ others
place_root Ordering.eq root other others rest = root ∷ other ∷ others

abbrev pub insert_root : FilePath → List FilePath → List FilePath
insert_root root [] = root ∷ []
insert_root root (other ∷ others) =
    place_root (path_compare root other) root other others (insert_root root others)

abbrev pub sort_roots : List FilePath → List FilePath
sort_roots [] = []
sort_roots (root ∷ roots) = insert_root root (sort_roots roots)

-- `dedup`: of equal neighbours the first is kept.
abbrev dedup_after : FilePath → List FilePath → List FilePath
dedup_after root [] = []
dedup_after root (other ∷ others) =
    if path_eq other root then dedup_after root others else other ∷ dedup_after other others

abbrev pub dedup : List FilePath → List FilePath
dedup [] = []
dedup (root ∷ roots) = root ∷ dedup_after root roots

abbrev pub recoverable_git_roots : List SessionRecord → List FilePath
recoverable_git_roots sessions = dedup (sort_roots (filter_map canonical_git_root sessions))

abbrev single_root : String → StableIdTargetAction → List FilePath → Result Error FilePath
single_root id action [] = err (no_recoverable_git_root id action)
single_root id action (root ∷ []) = ok root
single_root id action (_ ∷ _ ∷ _) = err (multiple_git_roots id action)

unfoldable pub single_recoverable_git_root :
    StableIdTargetSelection → StableIdTargetAction → Result Error FilePath
single_recoverable_git_root selection action =
    single_root selection.id action (recoverable_git_roots selection.sessions)

abbrev pub is_rooted : SessionRecord → Bool
is_rooted session = is_some (canonical_git_root session)

unfoldable pub into_all_rooted_sessions :
    StableIdTargetSelection → StableIdTargetAction → Result Error (List SessionRecord)
into_all_rooted_sessions selection action =
    let rooted = filter is_rooted selection.sessions in
    if is_empty rooted
    then err (no_recoverable_git_root selection.id action)
    else if not (eqb (length rooted) (length selection.sessions))
    then err (unrooted_matches selection.id action)
    else ok rooted

abbrev pub select_agentbox_stable_id_target :
    List SessionRecord → String → Result Error StableIdTargetSelection
select_agentbox_stable_id_target sessions prefix = do
  selection ← select_agentbox_stable_id_prefix sessions prefix
  ok (record { id = selection.id; sessions = selection.sessions })
