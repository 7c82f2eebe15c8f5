-- ===== src/Clean/Plan/Volumes.antt =====
-- Which volumes a clean removes, described without the loops.
use mathlib.Core.Bool.{cond}
use agentbox_nix.Shared.{
  String, ◌≡◌, refl, sym, ap, ◌∙◌, Bool, true, false, not, ◌&&◌, Option, none, some, List, [], ◌∷◌,
  ◌++◌, filter, any, is_some, if◌then◌else◌, ◌==◌, string_eq, Bool-cases, inl, inr,
}
use agentbox_nix.Errors.{RuntimeKind}
use agentbox_nix.Podman.{PodmanContainerInspect}
use agentbox_nix.Workspace.{is_agentbox_workspace_resource_name}
use agentbox_nix.Clean.Scope.{CleanResource, CleanScope, image, volume, lock_file, includes}
use agentbox_nix.Clean.Image.{default_image}
use agentbox_nix.Clean.Usage.{
  ResourceUsage, user, image_resource, volume_resource, usage_from_containers,
}
use agentbox_nix.Clean.Usage.Laws.{uses, usage_from_containers_lem}
use agentbox_nix.Clean.Plan.{
  DefaultRuntimeImageCandidate, WorkspaceLockFileStatus, available, locked, CleanInventory,
  CleanCandidate, default_runtime_image, cache_volume, workspace_lock_file, CleanPlan, empty_plan,
  image_candidate_or_skip, add_images, volume_candidate_or_skip, add_volume, add_volumes,
  add_lock_files, with_images, with_volumes, with_lock_files, from_inventory,
}

-- The names of the volumes among candidates, in their order.
abbrev pub volume_names : List CleanCandidate → List String
volume_names [] = []
volume_names (cache_volume resource ∷ candidates) = resource.name ∷ volume_names candidates
volume_names (default_runtime_image _ _ ∷ candidates) = volume_names candidates
volume_names (workspace_lock_file _ _ ∷ candidates) = volume_names candidates

volume_names-append :
    (xs ys : List CleanCandidate) → volume_names (xs ++ ys) ≡ volume_names xs ++ volume_names ys
volume_names-append [] ys = refl
volume_names-append (cache_volume r ∷ xs) ys =
    ap (λ rest. r.name ∷ rest) (volume_names-append xs ys)
volume_names-append (default_runtime_image _ _ ∷ xs) ys = volume_names-append xs ys
volume_names-append (workspace_lock_file _ _ ∷ xs) ys = volume_names-append xs ys

append_nil : (xs : List String) → xs ++ [] ≡ xs
append_nil [] = refl
append_nil (x ∷ xs) = ap (λ r. x ∷ r) (append_nil xs)

append_assoc : (xs ys zs : List String) → (xs ++ ys) ++ zs ≡ xs ++ (ys ++ zs)
append_assoc [] ys zs = refl
append_assoc (x ∷ xs) ys zs = ap (λ r. x ∷ r) (append_assoc xs ys zs)

abbrev names_in : CleanPlan → List String
names_in plan = volume_names plan.candidates

image_turn :
    (o : Option String) (b : Bool) (runtime : RuntimeKind) (resource : CleanResource)
    (plan : CleanPlan)
    → names_in (image_candidate_or_skip o b runtime resource plan) ≡ names_in plan
image_turn (some id) b runtime resource plan = refl
image_turn none true runtime resource plan = refl
image_turn none false runtime resource plan =
    volume_names-append plan.candidates _ ∙ append_nil (names_in plan)

images_keep :
    (context_hash : String) (images : List DefaultRuntimeImageCandidate) (seen : List String)
    (usage : ResourceUsage) (plan : CleanPlan)
    → names_in (add_images context_hash images seen usage plan) ≡ names_in plan
unfolding add_images
images_keep context_hash [] seen usage plan = refl
images_keep context_hash (c ∷ images) seen usage plan =
    elim (Bool-cases (any (λ other. other == c.image_name) seen)) [
      | inl e ↦ rw e (images_keep context_hash images seen usage plan)
      | inr e ↦ rw e (
          images_keep context_hash images (c.image_name ∷ seen) usage _
          ∙ image_turn (user usage (image_resource c.image_name))
              (c.image_name == default_image context_hash c.runtime) c.runtime
              (image_resource c.image_name) plan)
    ]

lock_files_keep :
    (files : List WorkspaceLockFileStatus) (plan : CleanPlan)
    → names_in (add_lock_files files plan) ≡ names_in plan
unfolding add_lock_files
lock_files_keep [] plan = refl
lock_files_keep (available path ∷ files) plan =
    lock_files_keep files _ ∙ volume_names-append plan.candidates _ ∙ append_nil (names_in plan)
lock_files_keep (locked path ∷ files) plan = lock_files_keep files _

abbrev is_free : ResourceUsage → String → Bool
is_free usage name =
    is_agentbox_workspace_resource_name name && not (is_some (user usage (volume_resource name)))

abbrev one_if : Bool → String → List String
one_if b name = if b then name ∷ [] else []

volume_turn :
    (b : Bool) (name : String) (usage : ResourceUsage) (plan : CleanPlan)
    → names_in (add_volume b name usage plan)
      ≡ names_in plan ++ one_if (b && not (is_some (user usage (volume_resource name)))) name
volume_turn false name usage plan = sym (append_nil (names_in plan))
volume_turn true name usage plan = by_user (user usage (volume_resource name))
  where
    by_user :
        (o : Option String)
        → names_in (volume_candidate_or_skip o (volume_resource name) plan)
          ≡ names_in plan ++ one_if (not (is_some o)) name
    by_user none = volume_names-append plan.candidates _
    by_user (some id) = sym (append_nil (names_in plan))

volumes_added :
    (names : List String) (usage : ResourceUsage) (plan : CleanPlan)
    → names_in (add_volumes names usage plan) ≡ names_in plan ++ filter (is_free usage) names
unfolding add_volumes
volumes_added [] usage plan = sym (append_nil (names_in plan))
volumes_added (name ∷ names) usage plan =
    volumes_added names usage _
    ∙ ap (λ r. r ++ filter (is_free usage) names)
        (volume_turn (is_agentbox_workspace_resource_name name) name usage plan)
    ∙ append_assoc (names_in plan) (one_if (is_free usage name) name) (filter (is_free usage) names)
    ∙ ap (λ r. names_in plan ++ r) (joined (is_free usage name))
  where
    joined :
        (b : Bool)
        → one_if b name ++ filter (is_free usage) names
          ≡ cond b (name ∷ filter (is_free usage) names) (filter (is_free usage) names)
    joined true = refl
    joined false = refl

-- Is the volume a workspace's, and used by no container?
abbrev pub is_unused_volume : List PodmanContainerInspect → String → Bool
is_unused_volume containers name =
    is_agentbox_workspace_resource_name name && not (any (uses (volume_resource name)) containers)

free_is_unused :
    (containers : List PodmanContainerInspect) (names : List String)
    → filter (is_free (usage_from_containers containers)) names
      ≡ filter (is_unused_volume containers) names
free_is_unused containers [] = refl
free_is_unused containers (name ∷ names) =
    ap
      (λ b.
        cond b (name ∷ filter (is_free (usage_from_containers containers)) names)
          (filter (is_free (usage_from_containers containers)) names))
      (ap (λ b. is_agentbox_workspace_resource_name name && not b)
        (usage_from_containers_lem (volume_resource name) containers))
    ∙ ap (λ r. cond (is_unused_volume containers name) (name ∷ r) r)
        (free_is_unused containers names)

-- The volumes that a clean removes are, in their order, exactly the volumes of the inventory that are
-- named like a workspace's and that no container uses; without volumes in its scope it removes none.
pub removed_volumes :
    (context_hash : String) (scope : CleanScope) (inventory : CleanInventory)
    → volume_names (from_inventory context_hash scope inventory).candidates ≡ (
        if includes scope volume
        then filter (is_unused_volume inventory.containers) inventory.volumes
        else [])
unfolding from_inventory
removed_volumes context_hash scope inventory =
    files_part (with_volumes scope inventory (with_images context_hash scope inventory empty_plan))
    ∙ volume_part
  where
    files_part :
        (plan : CleanPlan) → names_in (with_lock_files scope inventory plan) ≡ names_in plan
    files_part plan = elim (Bool-cases (includes scope lock_file)) [
      | inl e ↦ rw e (lock_files_keep inventory.lock_files plan)
      | inr e ↦ rw e refl
    ]

    image_part : names_in (with_images context_hash scope inventory empty_plan) ≡ []
    image_part = elim (Bool-cases (includes scope image)) [
      | inl e ↦ rw e (
          images_keep context_hash inventory.default_runtime_images []
            (usage_from_containers inventory.containers) empty_plan)
      | inr e ↦ rw e refl
    ]

    volume_part :
        names_in
          (with_volumes scope inventory (with_images context_hash scope inventory empty_plan))
        ≡ (if includes scope volume
            then filter (is_unused_volume inventory.containers) inventory.volumes
            else [])
    volume_part = elim (Bool-cases (includes scope volume)) [
      | inl e ↦ rw e (
          volumes_added inventory.volumes (usage_from_containers inventory.containers)
            (with_images context_hash scope inventory empty_plan)
          ∙ ap
              (λ r.
                r
                ++ filter (is_free (usage_from_containers inventory.containers)) inventory.volumes)
              image_part
          ∙ free_is_unused inventory.containers inventory.volumes)
      | inr e ↦ rw e image_part
    ]
