-- ===== src/Session/Collection/Laws.antt =====
-- The groups of a partition: ascending roots, and for every root the sessions of that root.
use agentbox_nix.Session.Collection.{place}
use agentbox_nix.Shared.{
  ◌≡◌, refl, sym, ap, ◌∙◌, Bool, true, false, not, Option, none, some, List, [], ◌∷◌, ◌++◌, All,
  filter, is_some, if◌then◌else◌, Ordering, Bool-cases, inl, inr,
}
use agentbox_nix.Paths.{FilePath, path_eq, path_compare}
use agentbox_nix.Paths.Laws.{
  path_eq_congr, path_compare_flip, path_compare_lt_trans, path_eq_not_lt, path_compare_eq,
}
use agentbox_nix.Session.Record.{SessionRecord, canonical_git_root}
use agentbox_nix.Session.Collection.{
  SessionGroup, SessionRootPartition, exact_git_root_matches, push_group, partition_step,
  partition_from, partition_sessions_by_git_root,
}

abbrev IsAbove : FilePath → SessionGroup → Type 0
IsAbove root group = path_compare root group.canonical_git_root ≡ Ordering.lt

-- Every root is less than the later ones, so a root has one group at most.
abbrev pub IsAscending : List SessionGroup → Type 0
IsAscending [] = Unit
IsAscending (group ∷ groups) = All (IsAbove group.canonical_git_root) groups × IsAscending groups

-- The sessions of the groups whose root is the given one.
abbrev pub sessions_of : FilePath → List SessionGroup → List SessionRecord
sessions_of root [] = []
sessions_of root (group ∷ groups) =
    (if path_eq group.canonical_git_root root then group.sessions else [])
    ++ sessions_of root groups

abbrev pub has_no_root : SessionRecord → Bool
has_no_root session = not (is_some (canonical_git_root session))

place-IsAbove :
    (o : Ordering) (low root : FilePath) (session : SessionRecord) (group : SessionGroup)
    (groups rest : List SessionGroup)
    → path_compare low root ≡ Ordering.lt
    → All (IsAbove low) (group ∷ groups)
    → All (IsAbove low) rest
    → All (IsAbove low) (place o root session group groups rest)
place-IsAbove Ordering.lt low root session group groups rest h (a, hs) ih = (h, (a, hs))
place-IsAbove Ordering.eq low root session group groups rest h (a, hs) ih = (a, hs)
place-IsAbove Ordering.gt low root session group groups rest h (a, hs) ih = (a, ih)

push-IsAbove :
    (low root : FilePath) (session : SessionRecord) (groups : List SessionGroup)
    → path_compare low root ≡ Ordering.lt
    → All (IsAbove low) groups
    → All (IsAbove low) (push_group root session groups)
unfolding push_group
push-IsAbove low root session [] h hs = (h, tt)
push-IsAbove low root session (group ∷ groups) h (a, hs) =
    place-IsAbove (path_compare root group.canonical_git_root) low root session group groups
      (push_group root session groups) h (a, hs) (push-IsAbove low root session groups h hs)

IsAbove-All :
    (low root : FilePath) (groups : List SessionGroup)
    → path_compare low root ≡ Ordering.lt
    → All (IsAbove root) groups
    → All (IsAbove low) groups
IsAbove-All low root [] h hs = tt
IsAbove-All low root (group ∷ groups) h (a, hs) =
    (path_compare_lt_trans low root group.canonical_git_root h a, IsAbove-All low root groups h hs)

place-IsAscending :
    (o : Ordering) (root : FilePath) (session : SessionRecord) (group : SessionGroup)
    (groups : List SessionGroup)
    → path_compare root group.canonical_git_root ≡ o
    → All (IsAbove group.canonical_git_root) groups
    → IsAscending groups
    → IsAscending (push_group root session groups)
    → IsAscending (place o root session group groups (push_group root session groups))
place-IsAscending Ordering.lt root session group groups e a h ih =
    ((e, IsAbove-All root group.canonical_git_root groups e a), (a, h))
place-IsAscending Ordering.eq root session group groups e a h ih = (a, h)
place-IsAscending Ordering.gt root session group groups e a h ih = (
  push-IsAbove group.canonical_git_root root session groups
      (path_compare_flip root group.canonical_git_root e) a,
  ih,
)

push-IsAscending :
    (root : FilePath) (session : SessionRecord) (groups : List SessionGroup)
    → IsAscending groups
    → IsAscending (push_group root session groups)
unfolding push_group
push-IsAscending root session [] h = (tt, tt)
push-IsAscending root session (group ∷ groups) (a, h) =
    place-IsAscending (path_compare root group.canonical_git_root) root session group groups refl a
      h (push-IsAscending root session groups h)

above_none :
    (root q : FilePath) (groups : List SessionGroup)
    → path_eq root q ≡ true
    → All (IsAbove root) groups
    → sessions_of q groups ≡ []
above_none root q [] h hs = refl
above_none root q (group ∷ groups) h (a, hs) =
    rw (path_eq_not_lt root q group.canonical_git_root h a) (above_none root q groups h hs)

append_nil : (xs : List SessionRecord) → xs ++ [] ≡ xs
append_nil [] = refl
append_nil (x ∷ xs) = ap (λ r. x ∷ r) (append_nil xs)

append_assoc : (xs ys zs : List SessionRecord) → (xs ++ ys) ++ zs ≡ xs ++ (ys ++ zs)
append_assoc [] ys zs = refl
append_assoc (x ∷ xs) ys zs = ap (λ r. x ∷ r) (append_assoc xs ys zs)

abbrev only_if : Bool → SessionRecord → List SessionRecord
only_if b session = if b then session ∷ [] else []

sessions_of-place :
    (o : Ordering) (root q : FilePath) (session : SessionRecord) (group : SessionGroup)
    (groups : List SessionGroup)
    → path_compare root group.canonical_git_root ≡ o
    → All (IsAbove group.canonical_git_root) groups
    → sessions_of q (push_group root session groups)
      ≡ sessions_of q groups ++ only_if (path_eq root q) session
    → sessions_of q (place o root session group groups (push_group root session groups))
      ≡ sessions_of q (group ∷ groups) ++ only_if (path_eq root q) session
sessions_of-place Ordering.gt root q session group groups e a ih =
    ap (λ r. (if path_eq group.canonical_git_root q then group.sessions else []) ++ r) ih
    ∙ sym (append_assoc _ (sessions_of q groups) (only_if (path_eq root q) session))
sessions_of-place Ordering.lt root q session group groups e a ih =
    elim (Bool-cases (path_eq root q)) [
      | inr b ↦ rw b (sym (append_nil (sessions_of q (group ∷ groups))))
      | inl b ↦
          let none_here =
            above_none root q (group ∷ groups) b
              (e, IsAbove-All root group.canonical_git_root groups e a) in
          rw b (ap (λ r. session ∷ r) none_here ∙ ap (λ r. r ++ session ∷ []) (sym none_here))
    ]
sessions_of-place Ordering.eq root q session group groups e a ih =
    elim (Bool-cases (path_eq root q)) [
      | inr b ↦ rw b (rw (sym same_test ∙ b) (sym (append_nil (sessions_of q groups))))
      | inl b ↦
          let here = sym same_test ∙ b in
          let none_here = above_none group.canonical_git_root q groups here a in
          rw b (
            rw here (
              rw none_here (
                append_nil (group.sessions ++ session ∷ [])
                ∙ ap (λ r. r ++ session ∷ []) (sym (append_nil group.sessions)))))
    ]
  where
    same_test : path_eq root q ≡ path_eq group.canonical_git_root q
    same_test =
        path_eq_congr root group.canonical_git_root q
          (path_compare_eq root group.canonical_git_root e)

sessions_of-push :
    (root q : FilePath) (session : SessionRecord) (groups : List SessionGroup)
    → IsAscending groups
    → sessions_of q (push_group root session groups)
      ≡ sessions_of q groups ++ only_if (path_eq root q) session
unfolding push_group
sessions_of-push root q session [] h = append_nil _
sessions_of-push root q session (group ∷ groups) (a, h) =
    sessions_of-place (path_compare root group.canonical_git_root) root q session group groups refl
      a (sessions_of-push root q session groups h)

-- What the loop over the sessions adds to the groups.
record IsAdded (sessions : List SessionRecord) (before after : SessionRootPartition) : Type 0 where
  ascending : IsAscending after.rooted
  of_root :
      (q : FilePath)
      → sessions_of q after.rooted
        ≡ sessions_of q before.rooted ++ exact_git_root_matches sessions q
  without : after.unrooted ≡ before.unrooted ++ filter has_no_root sessions

IsAdded-step :
    (o : Option FilePath) (session : SessionRecord) (sessions : List SessionRecord)
    (before after : SessionRootPartition)
    → canonical_git_root session ≡ o
    → IsAscending before.rooted
    → IsAdded sessions (partition_step o session before) after
    → IsAdded (session ∷ sessions) before after
unfolding exact_git_root_matches
IsAdded-step none session sessions before after e h added = record {
  ascending = added.ascending;
  of_root = λ q. added.of_root q ∙ rw e refl;
  without =
      added.without
      ∙ append_assoc before.unrooted (session ∷ []) (filter has_no_root sessions)
      ∙ rw e refl;
}
IsAdded-step (some root) session sessions before after e h added = record {
  ascending = added.ascending;
  of_root = λ q.
      added.of_root q
      ∙ ap (λ r. r ++ exact_git_root_matches sessions q)
          (sessions_of-push root q session before.rooted h)
      ∙ append_assoc (sessions_of q before.rooted) (only_if (path_eq root q) session)
          (exact_git_root_matches sessions q)
      ∙ ap (λ r. sessions_of q before.rooted ++ r) (here q (path_eq root q) refl);
  without = added.without ∙ rw e refl;
}
  where
    here :
        (q : FilePath) (b : Bool)
        → path_eq root q ≡ b
        → only_if (path_eq root q) session ++ exact_git_root_matches sessions q
          ≡ exact_git_root_matches (session ∷ sessions) q
    here q true c = rw e (rw c refl)
    here q false c = rw e (rw c refl)

step-IsAscending :
    (o : Option FilePath) (session : SessionRecord) (p : SessionRootPartition)
    → IsAscending p.rooted
    → IsAscending (partition_step o session p).rooted
step-IsAscending none session p h = h
step-IsAscending (some root) session p h = push-IsAscending root session p.rooted h

partition_from-IsAdded :
    (sessions : List SessionRecord) (p : SessionRootPartition)
    → IsAscending p.rooted
    → IsAdded sessions p (partition_from sessions p)
unfolding partition_from exact_git_root_matches
partition_from-IsAdded [] p h = record {
  ascending = h;
  of_root = λ q. sym (append_nil (sessions_of q p.rooted));
  without = sym (append_nil p.unrooted);
}
partition_from-IsAdded (session ∷ sessions) p h =
    IsAdded-step (canonical_git_root session) session sessions p
      (partition_from (session ∷ sessions) p) refl h
      (partition_from-IsAdded sessions (partition_step (canonical_git_root session) session p)
        (step-IsAscending (canonical_git_root session) session p h))

-- The groups of a partition have ascending roots, all different; for every path, the group of that
-- path holds exactly the sessions that have it as git root, in their order; and the rest are the
-- sessions without a git root, in their order.
pub partition_sessions_lem :
    (sessions : List SessionRecord)
    → IsAscending (partition_sessions_by_git_root sessions).rooted
      × ((q : FilePath)
          → sessions_of q (partition_sessions_by_git_root sessions).rooted
            ≡ exact_git_root_matches sessions q)
      × ((partition_sessions_by_git_root sessions).unrooted ≡ filter has_no_root sessions)
partition_sessions_lem sessions =
    let added = partition_from-IsAdded sessions (record { rooted = []; unrooted = [] }) tt in
    (added.ascending, λ q. added.of_root q, added.without)
