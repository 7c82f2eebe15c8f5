-- ===== src/Session/Selection.antt =====
-- src/session/selection.rs: the session that an abbreviated id stands for.
pub mod Laws
pub mod Unique
use agentbox_nix.Shared.{
  ℕ, String, Bool, true, false, ◌&&◌, Option, none, some, List, [], ◌∷◌, ◌++◌, map, is_some,
  unwrap_or, Result, ok, err, ◌>>=◌, ◌==◌, string_eq, if◌then◌else◌, Ordering, compare, is_empty,
  to_option,
}
use agentbox_nix.Shared.Order.{lex}
use agentbox_nix.Text.{codes, is_prefix, to_ascii_lowercase}
use agentbox_nix.Errors.{
  Error, empty_stable_id_prefix, no_id_matches_prefix, multiple_ids_match_prefix,
  duplicate_managed_sessions, RuntimeKind,
}
use agentbox_nix.Workspace.{WorkspaceIdentity}
use agentbox_nix.Session.Record.{SessionRecord, stable_id}

pub record StableIdPrefixSelection : Type 0 where
  pub id : String
  pub sessions : List SessionRecord

-- `into_single_session`
abbrev pub single : List SessionRecord → Option SessionRecord
single [] = none
single (session ∷ []) = some session
single (_ ∷ _ ∷ _) = none

-- A `BTreeMap` from ids to sessions, in the order of the ids.
abbrev pub Matches : Type 0
Matches = List (String × List SessionRecord)

-- `entry(id).or_default().push(session)`
abbrev pub push_match : String → SessionRecord → Matches → Matches
push_match id session [] = (id, session ∷ []) ∷ []
push_match id session ((other, sessions) ∷ matches) =
    let rest = push_match id session matches in
    elim (lex compare (codes id) (codes other)) [
      | Ordering.lt ↦ (id, session ∷ []) ∷ (other, sessions) ∷ matches
      | Ordering.eq ↦ (other, sessions ++ session ∷ []) ∷ matches
      | Ordering.gt ↦ (other, sessions) ∷ rest
    ]

abbrev pub lower : String → List ℕ
lower s = map to_ascii_lowercase (codes s)

abbrev pub collect_match : String → Option String → SessionRecord → Matches → Matches
collect_match prefix none session matches = matches
collect_match prefix (some id) session matches =
    if is_prefix (lower prefix) (lower id) then push_match id session matches else matches

-- The loop over the sessions.
unfoldable pub collect_matches : String → List SessionRecord → Matches → Matches
collect_matches prefix [] matches = matches
collect_matches prefix (session ∷ sessions) matches =
    collect_matches prefix sessions (collect_match prefix (stable_id session) session matches)

abbrev pub choose_match : String → String → Matches → Result Error StableIdPrefixSelection
choose_match prefix noun [] = err (no_id_matches_prefix noun prefix)
choose_match prefix noun ((id, sessions) ∷ []) = ok (record { id = id; sessions = sessions })
choose_match prefix noun (m ∷ n ∷ matches) =
    err (multiple_ids_match_prefix prefix (map (λ (id, _). id) (m ∷ n ∷ matches)))

unfoldable pub select_stable_id_prefix_with_noun :
    List SessionRecord → String → String → Result Error StableIdPrefixSelection
unfolding collect_matches
select_stable_id_prefix_with_noun sessions prefix noun =
    if prefix == ""
    then err empty_stable_id_prefix
    else choose_match prefix noun (collect_matches prefix sessions [])

abbrev pub select_stable_id_prefix :
    List SessionRecord → String → Result Error StableIdPrefixSelection
select_stable_id_prefix sessions prefix =
    select_stable_id_prefix_with_noun sessions prefix "managed session"

abbrev pub select_agentbox_stable_id_prefix :
    List SessionRecord → String → Result Error StableIdPrefixSelection
select_agentbox_stable_id_prefix sessions prefix =
    select_stable_id_prefix_with_noun sessions prefix "agentbox container"

unfoldable pub select_single_session :
    List SessionRecord → WorkspaceIdentity → Result Error (Option SessionRecord)
select_single_session [] workspace = ok none
select_single_session (session ∷ []) workspace = ok (some session)
select_single_session (_ ∷ _ ∷ _) workspace =
    err (duplicate_managed_sessions workspace.canonical_git_root)
