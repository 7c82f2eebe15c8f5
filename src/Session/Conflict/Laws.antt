-- ===== src/Session/Conflict/Laws.antt =====
-- When the explanation is a collision of hashes, and when it is that the container failed.
use agentbox_nix.Session.Conflict.{hash_matches_workspace}
use agentbox_nix.Shared.{
  ◌≡◌, ◌≢◌, refl, ◌↔◌, true, false, Option, none, some, string_eq, arith, Bool-cases, inl, inr,
  ==_refl, ==_sound,
}
use agentbox_nix.Errors.{SessionFailure, hash_collision, failed_managed_session}
use agentbox_nix.Session.Status.{has_volume_mount_destination, required_nix_cache_mount_destination}
use agentbox_nix.Session.Conflict.{ManagedContainerConflict, classify, root_matches_workspace}

-- What the error says of the container: that it is healthy as far as labels and mounts go.
pub record IsIntact (c : ManagedContainerConflict) : Type 0 where
  pub same_root : c.identity.canonical_git_root ≡ c.workspace.canonical_git_root
  pub same_hash : c.identity.git_root_hash ≡ c.workspace.hash12
  pub no_failure : c.same_root_failure ≡ none
  pub cached :
      has_volume_mount_destination c.inspect.mounts required_nix_cache_mount_destination ≡ true

no_same_root_failure :
    (c : ManagedContainerConflict)
    → classify c ≡ failed_managed_session c.workspace.canonical_git_root c.container_name
    → c.same_root_failure ≡ none
unfolding classify
no_same_root_failure c h = by_failure c.same_root_failure refl
  where
    by_failure : (o : Option SessionFailure) → c.same_root_failure ≡ o → c.same_root_failure ≡ none
    by_failure none e = e
    by_failure (some failure) e = absurd (ground arith)

failed_tests :
    (c : ManagedContainerConflict)
    → classify c ≡ failed_managed_session c.workspace.canonical_git_root c.container_name
    → c.same_root_failure ≡ none
    → (root_matches_workspace c ≡ true)
      × (hash_matches_workspace c ≡ true)
      × (has_volume_mount_destination c.inspect.mounts required_nix_cache_mount_destination ≡ true)
unfolding classify
failed_tests c h e = (ground arith, ground arith, ground arith)

-- A conflict with an agentbox container is explained by a mere failure exactly when the container
-- has the workspace's root and hash, its labels show no failure, and the cache is mounted.
pub classify_failed_iff :
    (c : ManagedContainerConflict)
    → (classify c ≡ failed_managed_session c.workspace.canonical_git_root c.container_name)
      ↔ IsIntact c
unfolding classify
classify_failed_iff c = (
  λ h.
      let none_here = no_same_root_failure c h in
      let (r, t, m) = failed_tests c h none_here in
      record {
        same_root = ==_sound _ _ r;
        same_hash = ==_sound _ _ t;
        no_failure = none_here;
        cached = m;
      },
  λ i.
      let r : root_matches_workspace c ≡ true =
        ground (arith, i.same_root, ==_refl c.workspace.canonical_git_root) in
      let t : hash_matches_workspace c ≡ true =
        ground (arith, i.same_hash, ==_refl c.workspace.hash12) in
      ground (arith, i.no_failure, i.cached),
)

collision_tests :
    (c : ManagedContainerConflict)
    → classify c
      ≡ hash_collision c.container_name c.workspace.hash12 c.identity.canonical_git_root
          c.workspace.canonical_git_root
    → (hash_matches_workspace c ≡ true) × (root_matches_workspace c ≡ false)
unfolding classify
collision_tests c h = by_failure c.same_root_failure refl
  where
    by_failure :
        (o : Option SessionFailure)
        → c.same_root_failure ≡ o
        → (hash_matches_workspace c ≡ true) × (root_matches_workspace c ≡ false)
    by_failure none e = (ground arith, ground arith)
    by_failure (some failure) e = (ground arith, ground arith)

-- It is explained by a collision of hashes exactly when the hashes are equal and the roots differ.
pub classify_collision_iff :
    (c : ManagedContainerConflict)
    → (classify c
        ≡ hash_collision c.container_name c.workspace.hash12 c.identity.canonical_git_root
            c.workspace.canonical_git_root)
      ↔ ((c.identity.git_root_hash ≡ c.workspace.hash12)
          × (c.identity.canonical_git_root ≢ c.workspace.canonical_git_root))
unfolding classify
classify_collision_iff c = (
  λ h.
      let (t, r) = collision_tests c h in
      (==_sound _ _ t, λ e. absurd (cc (r, ==_refl c.workspace.canonical_git_root, e))),
  λ (e, n).
      let t : hash_matches_workspace c ≡ true = ground (arith, ==_refl c.workspace.hash12) in
      elim (Bool-cases (root_matches_workspace c)) [
        | inl r ↦ absurd (n (==_sound _ _ r))
        | inr r ↦ ground arith
      ],
)
